-- ===== src/Quota/Overflow.antt =====
-- The sums of bytes, which wrap around.
use sandboxmatrix.Base.{
  ℕ, ◌+◌, ◌≤◌, ◌<◌, ◌^◌, String, ◌≡◌, ◌≢◌, ◌↔◌, ◌⊎◌, refl, false, str_eq, eq_iff, inl, inr, arith,
  Bool-cases,
}
use sandboxmatrix.Base.Action.{quoted, ok, err}
use sandboxmatrix.Quota.{
  Numbers, add_int64, above_int64, check_amount, check_bytes, parse_resource_value,
}

above-add :
    (m r used : ℕ)
    → m < 2 ^ 63
    → r < 2 ^ 63
    → used < 2 ^ 63
    → (above_int64 (add_int64 used r) m ≡ false) ↔ ((used + r ≤ m) ⊎ (2 ^ 63 ≤ used + r))
above-add m r used a b c = (λ h. ground arith, λ h. ground arith)

-- For a limit, a usage and a request that are given and parse to numbers below 2^63, the check of
-- memory or of disk passes exactly when the sum is within the limit or is 2^63 or more.
pub check_bytes_wraps :
    {F : Type 0} (num : Numbers F) (resource team max request : String) (m r used : ℕ)
    → max ≢ ""
    → request ≢ ""
    → parse_resource_value num max ≡ ok m
    → parse_resource_value num request ≡ ok r
    → m < 2 ^ 63
    → r < 2 ^ 63
    → used < 2 ^ 63
    → (check_bytes num resource team max used request ≡ ok tt)
      ↔ ((used + r ≤ m) ⊎ (2 ^ 63 ≤ used + r))
unfolding check_bytes check_amount
check_bytes_wraps num resource team max request m r used a b p q c d e =
    let (f, g) = above-add m r used c d e in
    let has_max : str_eq max "" ≡ false = ground (arith, eq_iff max "") in
    let has_request : str_eq request "" ≡ false = ground (arith, eq_iff request "") in
    (
      (λ h. elim (Bool-cases (above_int64 (add_int64 used r) m)) [
        | inr o ↦ f o
        | inl o ↦
            let refused : check_bytes num resource team max used request
                ≡ err (quoted resource team) =
              rw (check_bytes, has_max, has_request, p, q, o) refl in
            absurd (ground arith)
      ]),
      λ h. rw (check_bytes, has_max, has_request, p, q, g h) refl,
    )
