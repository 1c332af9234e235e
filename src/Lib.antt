-- ===== src/Lib.antt =====
-- libpsf reads the PSF files that a circuit simulator writes. A file is a sequence of sections of
-- big-endian chunks - a header, types, sweeps, traces and values - behind a signature word that
-- nothing reads, and before a table of the sections' offsets, the word "Clarissa" and the size of the
-- sections. The children of a section without an index are followed by a marker: a chunk of type 1 in
-- the header, 3 in the sweep section, 15 in the values; behind an index stands a word that is not
-- read. A client opens a PSFDataSet (include/psf.h, src/psf.cc), which maps the file through a PSFFile
-- (src/psffile.cc); that reads the table and deserializes the sections. Values of a sweep are read
-- from the mapping when a signal is asked for, by offsets that are computed from the traces and types
-- once.
--
-- Which file models which part, from the repository's root:
--   Buffer: the reads of words and doubles (src/psfendian.h, the macros of src/psfinternal.h).
--   Scalar: the scalars, the struct among them, and their conversions to `int` and `double` (src/psfdata.cc,
--     include/psfdata.h).
--   Chunk: Chunk::deserialize and Container::deserialize_child (src/psfchunk.cc, src/psfcontainer.cc).
--   Property: properties and their blocks (src/psfproperty.cc, src/psfpropertyblock.cc).
--   TypeDef: DataTypeDef and StructDef, and the values of a type (src/psftype.cc, src/psfstruct.cc).
--   Container: SimpleContainer, IndexedContainer and the indices (src/psfcontainer.cc,
--     src/psfindexedcontainer.cc), generic in the children.
--   Trace: the header, type, sweep and trace sections, DataTypeRef and GroupDef (src/psfsections.cc,
--     src/psftype.cc, src/psfgroup.cc, src/psftrace.cc).
--   Vector: PSFVectorT and VectorStruct (include/psfdata.h, src/psfdata.cc).
--   NonSweep: the values of a file without a sweep (src/psfnonsweepvalue.cc).
--   Sweep, Sweep/Placement: the values of a sweep, point by point or in windows, and the offsets of
--     the traces (src/psfsweepvalue.cc).
--   File: PSFFile (src/psffile.cc). DataSet: PSFDataSet (src/psf.cc).
--   Python: the conversions of the Python module and the methods of its class
--     (bindings/python/psfpython.cc).
--   Outcome: exceptions as values. Prelude: numbers, lists, integers and maps. Samples, Tests: runs.
-- A child module proves what its name says: Total, Section and Fuel that the code ends, Typed and
-- the Total of sweeps that vectors hold values of their class, RoundTrip that what is encoded is
-- read back, Written what the bytes of a whole section or file are, the others a property of that
-- part. File/Opened and DataSet/Written put the parts together: the bytes of a file with a sweep,
-- through the table, the sections, the offsets and the points, to what the client gets;
-- OpenedValues and WrittenValues do so for a file without a sweep, with its numbers and structs.
-- DataSet/Machine states what a client sees of `open` and `close`: two bits over the file that was
-- read.
--
-- How state and operations correspond. A mapped file is the list of its bytes, and a pointer into it a
-- position; a read outside of the list is the error `undefined`, as is every other step that C++
-- leaves undefined: signed overflow, the dereference of an end iterator or a null pointer, a function
-- that ends without its value. An exception is an error of the result. What a `close` that throws
-- leaves is modelled (left_by_close, DataSet/Reach); what any other operation that throws leaves is
-- not. A deserializer gives the object and the bytes that it took. An `int` is an integer whose sums
-- are checked; where the code computes in `uint32_t` the wrap-around is written out. A double is its
-- bit pattern. A `std::map` is an association list, and where the code iterates over it, its list in
-- the order of the keys (map_order of Python). The size of a file is an `int`, as the member that
-- keeps it: where it is negative, `mmap` fails and every read is undefined. A section that a PSFFile
-- may not have is an option; the value sections get the other sections as an argument in place of the
-- pointer to the PSFFile. The operating system is a parameter of File and DataSet: the content of a
-- file by its name, and whether `close` succeeds. The interpreter with NumPy is a parameter of Python:
-- the objects that it makes, and, where a theorem needs them, the laws of its dictionaries
-- (Python/Dicts).
--
-- Fuel. Each loop over chunks gets more rounds than the file has bytes, and takes four bytes or more
-- in a round, so that it reaches the end of the file, where a read fails, before the fuel is out. The
-- reader of nested types has two units of fuel for each byte. A loop of windows takes eight bytes or
-- more in a round only if the product of the window size and the number of traces, which the file
-- states, is not negative; that is the hypothesis `Forward`. `stuck` is the result of a loop that is
-- out of fuel.
--
-- Not modelled: the printing of objects, and the conversion to text but for `int`; the number that
-- `atof` finds in a text, which is an argument of the conversion to doubles; the release of memory,
-- that of the vector of structs included which `get_signal` deletes once it has inverted it, although
-- items of nested structs are shared with the result; src/psfreader.cc, which no build file names; the
-- iterator template of sweep values, which has no user; the test programs; the reference counts of
-- Python objects.
pub mod Prelude
pub mod Outcome
pub mod Buffer
pub mod Scalar
pub mod Chunk
pub mod Property
pub mod TypeDef
pub mod Container
pub mod Trace
pub mod Vector
pub mod NonSweep
pub mod Sweep
pub mod File
pub mod DataSet
pub mod Python
pub mod Samples
pub mod Tests
