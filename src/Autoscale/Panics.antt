-- ===== src/Autoscale/Panics.antt =====
-- Which memory limits the autoscaler cannot read.
use sandboxmatrix.Base.{
  String, ap, ◌∙◌, ◌≡◌, ◌≢◌, ◌↔◌, refl, true, false, none, str_eq, eq_iff, arith,
}
use sandboxmatrix.Autoscale.{Floats}
use sandboxmatrix.Autoscale.Host.{parse_memory_bytes}

-- A limit panics exactly if it is a text of white space only, if the empty text has neither suffix.
pub parse_memory_bytes_panics :
    {F : Type 0} (num : Floats F) (text : String)
    → num.has_suffix "" "Gi" ≡ false
    → num.has_suffix "" "Mi" ≡ false
    → (parse_memory_bytes num text ≡ none) ↔ ((text ≢ "") × (num.trim_space text ≡ ""))
unfolding parse_memory_bytes
parse_memory_bytes_panics num text a b =
    let s = num.trim_space text in
    (
      λ h. ((λ e. ground (arith, eq_iff text "")), ground (arith, eq_iff (num.trim_space text) "")),
      λ (h, e).
          let n : str_eq text "" ≡ false = ground (arith, eq_iff text "") in
          let gi : num.has_suffix s "Gi" ≡ false = ap (λ x. num.has_suffix x "Gi") e ∙ a in
          let mi : num.has_suffix s "Mi" ≡ false = ap (λ x. num.has_suffix x "Mi") e ∙ b in
          let blank : str_eq s "" ≡ true = ground (arith, eq_iff s "") in
          rw (parse_memory_bytes, n, gi, mi, blank) refl,
    )
