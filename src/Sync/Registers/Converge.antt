-- ===== src/Sync/Registers/Converge.antt =====
-- That the order of a batch does not matter.
use mathlib.Core.List.{Memᴰ, Permᴰ}
use mathlib.Core.List.Permᴰ
use retainer.Prelude.{
  ℕ, ◌≡◌, refl, sym, ap, ◌∙◌, String, true, none, some, List, ◌∷◌, arith, inl, inr, Bool-cases,
}
use retainer.Prelude.Text.{Text}
use retainer.Prelude.Int.{ℤ}
use retainer.Schema.{Db}
use retainer.Store.{Result, ok, err}
use retainer.Store.Inversion.{ok_injective}
use retainer.Sync.{apply}
use retainer.Sync.Wire.{Mutation, NoteColumn, Value, note_field_columns}
use retainer.Sync.Clocks.{not_after_trans, not_after_total, not_after_antisym}
use retainer.Sync.Pull.{Changes}
use retainer.Sync.Registers.{
  Register, write, decode_at, write_decoded, concerns, write_one, write_all, register_at,
}
use retainer.Sync.Registers.Refines.{apply-register_at}

write_comm :
    (s t : Text) (v w : Value) (r : Register)
    → (s ≡ t → v ≡ w)
    → write s v (write t w r) ≡ write t w (write s v r)
unfolding write
write_comm s t v w (none, x) agree =
    ground (arith, not_after_total s t, not_after_antisym s t, agree)
write_comm s t v w (some l, x) agree = ground (
  arith,
  not_after_total s t,
  not_after_total s l,
  not_after_total t l,
  not_after_antisym s t,
  not_after_trans t l s,
  not_after_trans s l t,
  not_after_trans s t l,
  not_after_trans t s l,
  agree,
)

write_decoded_comm :
    (s t : Text) (v w : Result Value) (r : Register)
    → (s ≡ t → v ≡ w)
    → write_decoded s v (write_decoded t w r) ≡ write_decoded t w (write_decoded s v r)
unfolding write_decoded
write_decoded_comm s t (ok v) (ok w) r agree = write_comm s t v w r (λ e. ok_injective (agree e))
write_decoded_comm s t (ok v) (err y) r agree = refl
write_decoded_comm s t (err x) w r agree = refl

Memᴰ-perm {ℓ} : {A : Type ℓ} {a : A} {xs ys : List A} → Permᴰ xs ys → Memᴰ a xs → Memᴰ a ys
Memᴰ-perm Permᴰ.nil m = m
Memᴰ-perm (Permᴰ.cons e p) (Memᴰ.head x) = Memᴰ.head (x ∙ e)
Memᴰ-perm (Permᴰ.cons e p) (Memᴰ.tail m) = Memᴰ.tail (Memᴰ-perm p m)
Memᴰ-perm (Permᴰ.swap e f) (Memᴰ.head x) = Memᴰ.tail (Memᴰ.head (x ∙ e))
Memᴰ-perm (Permᴰ.swap e f) (Memᴰ.tail (Memᴰ.head x)) = Memᴰ.head (x ∙ f)
Memᴰ-perm (Permᴰ.swap e f) (Memᴰ.tail (Memᴰ.tail m)) = Memᴰ.tail (Memᴰ.tail m)
Memᴰ-perm (Permᴰ.trans p q) m = Memᴰ-perm q (Memᴰ-perm p m)

-- Of the edits of one field of one note, those with one stamp are one edit.
unfoldable pub Agreeing : String → String → List Mutation → Type 0
Agreeing id field ms =
    (m n : Mutation)
    → Memᴰ m ms
    → Memᴰ n ms
    → concerns id field m ≡ true
    → concerns id field n ≡ true
    → m.hlc ≡ n.hlc
    → m.value ≡ n.value

module _ (id field : String) (c : NoteColumn) where
  write_one_comm :
      (m n : Mutation) (r : Register)
      → (concerns id field m ≡ true
          → concerns id field n ≡ true
          → m.hlc ≡ n.hlc
          → m.value ≡ n.value)
      → write_one id field c m (write_one id field c n r)
        ≡ write_one id field c n (write_one id field c m r)
  unfolding write_one
  write_one_comm m n r agree = elim (Bool-cases (concerns id field m)) [
    | inr miss ↦ rw miss refl
    | inl hit ↦ elim (Bool-cases (concerns id field n)) [
      | inr miss ↦ rw (hit, miss) refl
      | inl hit' ↦
          rw (hit, hit')
            (write_decoded_comm m.hlc n.hlc (decode_at c m.value) (decode_at c n.value) r
              (λ e. ap (decode_at c) (agree hit hit' e)))
    ]
  ]

  tail-Agreeing :
      (m : Mutation) (ms : List Mutation) → Agreeing id field (m ∷ ms) → Agreeing id field ms
  unfolding Agreeing
  tail-Agreeing m ms a x y in_x in_y = a x y (Memᴰ.tail in_x) (Memᴰ.tail in_y)

  Permᴰ-Agreeing :
      (ms ns : List Mutation) → Permᴰ ms ns → Agreeing id field ms → Agreeing id field ns
  unfolding Agreeing
  Permᴰ-Agreeing ms ns p a x y in_x in_y =
      a x y (Memᴰ-perm (Permᴰ.symm p) in_x) (Memᴰ-perm (Permᴰ.symm p) in_y)

  write_all-perm :
      {ms ns : List Mutation} (r : Register)
      → Permᴰ ms ns
      → Agreeing id field ms
      → write_all id field c ms r ≡ write_all id field c ns r
  unfolding write_all Agreeing
  write_all-perm r Permᴰ.nil a = refl
  write_all-perm r (Permᴰ.cons {a = m} {b = n} {l₁ = ms} e p) a =
      ap (λ x. write_all id field c ms (write_one id field c x r)) e
      ∙ write_all-perm (write_one id field c n r) p (tail-Agreeing m ms a)
  write_all-perm r (Permᴰ.swap {a = m} {b = n} {a' = n'} {b' = m'} {l = ms} e f) a =
      ap (write_all id field c ms) (
        write_one_comm n m r (a n m (Memᴰ.tail (Memᴰ.head refl)) (Memᴰ.head refl))
        ∙ ap (λ x. write_one id field c x (write_one id field c n r)) e
        ∙ ap (λ x. write_one id field c m' (write_one id field c x r)) f)
  write_all-perm {ms} r (Permᴰ.trans {l₂ = ls} p q) a =
      write_all-perm r p a ∙ write_all-perm r q (Permᴰ-Agreeing ms ls p a)

-- Two servers start from one database, and take the same edits in two orders, at any times, and both
-- accept them. Then each field of each note has one value and one stamp on both, where of the edits
-- of that field those with one stamp have one value.
pub apply-Converges :
    (id field : String) (c : NoteColumn) (clock clock' : ℕ → ℤ) (since since' : ℕ)
    (ms ns : List Mutation) (d e e' : Db) (r r' : ℕ × Changes)
    → note_field_columns field ≡ some c
    → Permᴰ ms ns
    → Agreeing id field ms
    → apply clock since ms d ≡ (ok r, e)
    → apply clock' since' ns d ≡ (ok r', e')
    → register_at id field c e ≡ register_at id field c e'
apply-Converges id field c clock clock' since since' ms ns d e e' r r' column p agree h h' =
    apply-register_at id field c clock since ms d e r column h
    ∙ write_all-perm id field c (register_at id field c d) p agree
    ∙ sym (apply-register_at id field c clock' since' ns d e' r' column h')
