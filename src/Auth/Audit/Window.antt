-- ===== src/Auth/Audit/Window.antt =====
-- The log as a window on its history, and a query as a filter of that window.
use mathlib.Core.List.{reverse, append_assoc, append-nil}
use sandboxmatrix.Base.{
  ℕ, zero, suc, ◌+◌, ◌-◌, ◌≤◌, ◌<◌, String, ◌≡◌, refl, ap, sym, ◌∙◌, true, List, [], ◌∷◌, ◌++◌,
  length, length-append, length-drop, drop, take, keep, arith, Bool-cases, inl, inr, ltb, Option,
}
use sandboxmatrix.Base.Action.{Result}
use sandboxmatrix.Api.{AuditEntry}
use sandboxmatrix.Auth.Audit.{
  AuditLog, new_audit_log, stamped, trimmed, record_entry, matches, query_loop, query,
}

-- The last n elements.
abbrev pub last {ℓ} : {A : Type ℓ} → ℕ → List A → List A
last n xs = drop (length xs - n) xs

drop-append :
    {A : Type 0} (n : ℕ) (xs ys : List A) → n ≤ length xs → drop n (xs ++ ys) ≡ drop n xs ++ ys
drop-append zero xs ys h = refl
drop-append (suc n) [] ys h = elim h [ ]
drop-append (suc n) (x ∷ xs) ys h = drop-append n xs ys (omega arith)

drop-nil : {A : Type 0} (n : ℕ) → drop {A = A} n [] ≡ []
drop-nil zero = refl
drop-nil (suc n) = refl

drop-drop : {A : Type 0} (m n : ℕ) (xs : List A) → drop m (drop n xs) ≡ drop (n + m) xs
drop-drop m zero xs = ap (λ (k : ℕ). drop k xs) (omega arith)
drop-drop {A} m (suc n) [] = drop-nil {A = A} m ∙ sym (drop-nil {A = A} (suc n + m))
drop-drop {A} m (suc n) (x ∷ xs) =
    let e : suc n + m ≡ suc (n + m) = omega arith in rw e (drop-drop m n xs)

-- The entries that a log keeps of a history.
abbrev pub window : ℕ → List AuditEntry → List AuditEntry
window zero es = es
window (suc n) es = last (suc n) es

trimmed-drop :
    (n k : ℕ) (ys : List AuditEntry)
    → k ≡ length ys - 1 - suc n
    → 0 < length ys
    → trimmed (suc n) (drop k ys) ≡ drop (length ys - suc n) ys
trimmed-drop n k ys h p =
    let l = length-drop k ys in
    let z : ltb 0 (suc n) ≡ true = ground arith in
    elim (Bool-cases (ltb (suc n) (length (drop k ys)))) [
      | inl long ↦
          let e : k + (length (drop k ys) - suc n) ≡ length ys - suc n = ground (arith, l) in
          rw (z, long) (drop-drop (length (drop k ys) - suc n) k ys ∙ ap (λ (m : ℕ). drop m ys) e)
      | inr short ↦
          let e : k ≡ length ys - suc n = ground (arith, l) in
          rw (z, short) (ap (λ (m : ℕ). drop m ys) e)
    ]

window-snoc :
    (max : ℕ) (es : List AuditEntry) (e : AuditEntry)
    → trimmed max (window max es ++ e ∷ []) ≡ window max (es ++ e ∷ [])
window-snoc zero es e = ground arith
window-snoc (suc n) es e =
    let l = length-append es (e ∷ []) in
    let k = length es - suc n in
    ap (trimmed (suc n)) (sym (drop-append k es (e ∷ []) (omega arith)))
    ∙ trimmed-drop n k (es ++ e ∷ []) (omega arith) (omega arith)

-- Calls of Record, at the times given.
abbrev pub record_all : (AuditEntry → Result String) → List (ℕ × AuditEntry) → AuditLog → AuditLog
record_all marshal [] log = log
record_all marshal ((now, e) ∷ es) log = record_all marshal es (record_entry marshal now e log)

abbrev pub history : List (ℕ × AuditEntry) → List AuditEntry
history [] = []
history ((now, e) ∷ es) = stamped now e ∷ history es

window-nil : (max : ℕ) → [] ≡ window max []
window-nil zero = refl
window-nil (suc n) = sym (drop-nil {A = AuditEntry} (0 - suc n))

record_all-window :
    (marshal : AuditEntry → Result String) (es : List (ℕ × AuditEntry)) (log : AuditLog)
    (past : List AuditEntry)
    → log.entries ≡ window log.max_size past
    → (record_all marshal es log).entries ≡ window log.max_size (past ++ history es)
unfolding record_entry
record_all-window marshal [] log past h = h ∙ ap (window log.max_size) (sym (append-nil past))
record_all-window marshal ((now, e) ∷ es) log past h =
    let next = record_entry marshal now e log in
    let grown : next.entries ≡ window log.max_size (past ++ stamped now e ∷ []) =
      ap (λ l. trimmed log.max_size (l ++ stamped now e ∷ [])) h
      ∙ window-snoc log.max_size past (stamped now e) in
    record_all-window marshal es next (past ++ stamped now e ∷ []) grown
    ∙ ap (window log.max_size) (append_assoc past (stamped now e ∷ []) (history es))

-- After any calls of Record on a new log, its entries are the newest max_size of those recorded, or
-- all of them if max_size is 0, each with its own time or else the time of the call.
pub record_all_entries :
    (marshal : AuditEntry → Result String) (max : ℕ) (file : Option (List String))
    (es : List (ℕ × AuditEntry))
    → (record_all marshal es (new_audit_log max file)).entries ≡ window max (history es)
unfolding new_audit_log
record_all_entries marshal max file es =
    record_all-window marshal es (new_audit_log max file) [] (window-nil max)

abbrev pub limited : ℕ → List AuditEntry → List AuditEntry
limited zero es = es
limited (suc n) es = take (suc n) es

query_all :
    (user action : String) (found : ℕ) (es : List AuditEntry)
    → query_loop user action 0 found es ≡ keep (matches user action) es
unfolding query_loop
query_all user action found [] = refl
query_all user action found (e ∷ es) =
    ground (arith, query_all user action found es, query_all user action (suc found) es)

query_some :
    (user action : String) (l found room : ℕ) (es : List AuditEntry)
    → found + room ≡ l
    → query_loop user action (suc l) found es ≡ take (suc room) (keep (matches user action) es)
unfolding query_loop
query_some user action l found room [] h = refl
query_some user action l found zero (e ∷ es) h =
    ground (arith, query_some user action l found zero es h)
query_some user action l found (suc room) (e ∷ es) h = ground (
  arith,
  query_some user action l found (suc room) es h,
  query_some user action l (suc found) room es,
)

-- A query returns the entries that match the user and the action, where these are given, the newest
-- first, and no more than the limit, where it is positive.
pub query_lem :
    (user action : String) (limit : ℕ) (log : AuditLog)
    → query user action limit log ≡ limited limit (keep (matches user action) (reverse log.entries))
unfolding query
query_lem user action zero log = query_all user action 0 (reverse log.entries)
query_lem user action (suc l) log = query_some user action l 0 l (reverse log.entries) (omega arith)

-- After any calls of Record on a new log, a query returns, newest first and no more than a positive
-- limit, the matching ones among the newest max_size entries, or among all if max_size is 0.
pub query_newest :
    (marshal : AuditEntry → Result String) (max : ℕ) (file : Option (List String))
    (es : List (ℕ × AuditEntry)) (user action : String) (limit : ℕ)
    → query user action limit (record_all marshal es (new_audit_log max file))
      ≡ limited limit (keep (matches user action) (reverse (window max (history es))))
query_newest marshal max file es user action limit =
    query_lem user action limit (record_all marshal es (new_audit_log max file))
    ∙ ap (λ l. limited limit (keep (matches user action) (reverse l)))
        (record_all_entries marshal max file es)
