-- ===== src/Demo/TrailLaws.antt =====
-- demo/state.ts: what the head of the hash chain says of the trail.
use aimail.Base.{
  ℕ, ◌+◌, true, not, some, List, [], ◌∷◌, ◌++◌, Text, text_eq, text_eq_iff, length, all, ◌==◌, ◌≡◌,
  ◌≢◌, refl, ◌⊎◌, inl, inr, Bool-cases, arith,
}
use aimail.Demo.Types.{AuditEvent, DemoState}
use aimail.Demo.Trail.{
  separator, joined_fields, hashed_text, genesis_hash, repeated, chained_from, chained_audit,
  head_hash,
}

-- No character of the text separates fields.
abbrev pub IsUnseparated : Text → Type 0
IsUnseparated t = all (λ c. not (c == separator)) t ≡ true

first_field :
    (p q rest other : Text)
    → IsUnseparated p
    → IsUnseparated q
    → p ++ separator ∷ rest ≡ q ++ separator ∷ other
    → p ≡ q
first_field [] [] rest other hp hq e = refl
first_field [] (d ∷ q) rest other hp hq e = absurd (ground (arith, hq, e))
first_field (c ∷ p) [] rest other hp hq e = absurd (ground (arith, hp, e))
first_field (c ∷ p) (d ∷ q) rest other hp hq e =
    let later : p ≡ q = first_field p q rest other (ground (arith, hp)) (ground (arith, hq)) (cc) in
    cc

hashed_text-first :
    (p q : Text) (place : ℕ) (x y : AuditEvent)
    → IsUnseparated p
    → IsUnseparated q
    → hashed_text p place x ≡ hashed_text q place y
    → p ≡ q
unfolding hashed_text joined_fields
hashed_text-first p q place x y hp hq e = first_field p q _ _ hp hq e

-- Two texts with one digest.
abbrev pub Collision : (Text → Text) → Type 0
Collision sha256 = (a : Text) × (b : Text) × (a ≢ b) × (sha256 a ≡ sha256 b)

module _ (sha256 : Text → Text) where
  -- What the hashes of a trail are taken of, row by row.
  unfoldable pub hashed_from : Text → ℕ → List AuditEvent → List Text
  hashed_from prev place [] = []
  hashed_from prev place (event ∷ events) =
      hashed_text prev place event
      ∷ hashed_from (sha256 (hashed_text prev place event)) (place + 1) events

  final_hash : Text → ℕ → List AuditEvent → Text
  final_hash prev place [] = prev
  final_hash prev place (event ∷ events) =
      final_hash (sha256 (hashed_text prev place event)) (place + 1) events

  head_hash-final :
      (prev : Text) (place : ℕ) (event : AuditEvent) (events : List AuditEvent)
      → head_hash (chained_from sha256 prev place (event ∷ events))
        ≡ some (final_hash prev place (event ∷ events))
  unfolding head_hash chained_from final_hash
  head_hash-final prev place event [] = refl
  head_hash-final prev place event (next ∷ events) =
      head_hash-final (sha256 (hashed_text prev place event)) (place + 1) next events

  same_final :
      (p q : Text) (place : ℕ) (xs ys : List AuditEvent)
      → ((t : Text) → IsUnseparated (sha256 t))
      → IsUnseparated p
      → IsUnseparated q
      → length xs ≡ length ys
      → final_hash p place xs ≡ final_hash q place ys
      → ((p ≡ q) × (hashed_from p place xs ≡ hashed_from q place ys)) ⊎ Collision sha256
  unfolding final_hash hashed_from
  same_final p q place [] [] hex hp hq len e = inl (e, refl)
  same_final p q place [] (y ∷ ys) hex hp hq len e = absurd (omega (arith, len))
  same_final p q place (x ∷ xs) [] hex hp hq len e = absurd (omega (arith, len))
  same_final p q place (x ∷ xs) (y ∷ ys) hex hp hq len e =
      elim (same_final (sha256 (hashed_text p place x)) (sha256 (hashed_text q place y)) (place + 1)
        xs ys hex (hex _) (hex _) (omega (arith, len)) e) [
          | inr found ↦ inr found
          | inl (same, later) ↦
              elim (Bool-cases (text_eq (hashed_text p place x) (hashed_text q place y))) [
                | inr differ ↦ inr (
                  hashed_text p place x,
                  hashed_text q place y,
                  (λ eq.
                      cc (
                        differ,
                        (text_eq_iff (hashed_text p place x) (hashed_text q place y)).1 eq,
                      )),
                  same,
                )
                | inl agree ↦
                    let equal =
                      (text_eq_iff (hashed_text p place x) (hashed_text q place y)).0 agree in
                    inl (hashed_text-first p q place x y hp hq equal, cc (equal, later))
              ]
        ]

genesis-IsUnseparated : IsUnseparated genesis_hash
unfolding genesis_hash repeated
genesis-IsUnseparated = refl

-- Two trails of the same length with the same head hash have the same rows: in each place the text
-- that is hashed is the same, its place, action, detail, success and time included; or else two
-- different texts with the same digest are found. No digest has the character that separates fields.
pub same_head-same_rows :
    (sha256 : Text → Text) (s u : DemoState)
    → ((t : Text) → IsUnseparated (sha256 t))
    → length s.audit ≡ length u.audit
    → head_hash (chained_audit sha256 s) ≡ head_hash (chained_audit sha256 u)
    → (hashed_from sha256 genesis_hash 1 s.audit ≡ hashed_from sha256 genesis_hash 1 u.audit)
      ⊎ Collision sha256
unfolding chained_audit
same_head-same_rows sha256 s u hex len e = of_rows s.audit u.audit len e
  where
    of_rows :
        (xs ys : List AuditEvent)
        → length xs ≡ length ys
        → head_hash (chained_from sha256 genesis_hash 1 xs)
          ≡ head_hash (chained_from sha256 genesis_hash 1 ys)
        → (hashed_from sha256 genesis_hash 1 xs ≡ hashed_from sha256 genesis_hash 1 ys)
          ⊎ Collision sha256
    of_rows [] [] len e = inl refl
    of_rows [] (y ∷ ys) len e = absurd (omega (arith, len))
    of_rows (x ∷ xs) [] len e = absurd (omega (arith, len))
    of_rows (x ∷ xs) (y ∷ ys) len e =
        elim (same_final sha256 genesis_hash genesis_hash 1 (x ∷ xs) (y ∷ ys) hex
          genesis-IsUnseparated genesis-IsUnseparated len
          (cc (
            head_hash-final sha256 genesis_hash 1 x xs,
            head_hash-final sha256 genesis_hash 1 y ys,
            e,
          ))) [ inl (_, rows) ↦ inl rows | inr found ↦ inr found ]
