-- ===== src/Trace/Header.antt =====
-- HeaderSection of src/psfsections.cc: the block that its children make.
use libpsf.Prelude.{ℕ, ◌≡◌, refl, sym, ap, ◌∙◌, List, [], ◌∷◌}
use mathlib.Core.Path.{subst}
use libpsf.Outcome.{ok, >>=-ok}
use libpsf.Buffer.{Bytes}
use libpsf.Container.{simple_deserialize}
use libpsf.Property.{Property, PropertyBlock, empty_block, append_prop}
use libpsf.Property.RoundTrip.{append_all}
use libpsf.Property.Lookup.{proplist-append_all, append_all-copied}
use libpsf.Trace.{header_factory, header_deserialize, append_children}

pub append_children-append_all :
    (b : PropertyBlock) (props : List Property) → append_children b props ≡ append_all b props
append_children-append_all b [] = refl
append_children-append_all b (prop ∷ props) = append_children-append_all (append_prop b prop) props

-- A header that was read is the block of its own properties.
pub header_deserialize-append_all :
    (buf : Bytes) (start abspos n : ℕ) (b : PropertyBlock)
    → header_deserialize buf start abspos ≡ ok (b, n)
    → b ≡ append_all empty_block b.proplist
unfolding header_deserialize
header_deserialize-append_all buf start abspos n b e =
    let ((cs, m), read, e') = >>=-ok (simple_deserialize header_factory buf start abspos) _ e in
    let same : append_children empty_block cs ≡ b = cc in
    let made : append_all empty_block cs ≡ b =
      sym (append_children-append_all empty_block cs) ∙ same in
    subst (λ c. c ≡ append_all empty_block c.proplist) made
      (sym (append_all-copied empty_block cs)
        ∙ ap (append_all empty_block) (sym (proplist-append_all empty_block cs)))
