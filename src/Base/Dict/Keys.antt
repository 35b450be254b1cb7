-- ===== src/Base/Dict/Keys.antt =====
-- The keys of a dict stay distinct, and its entries are what it answers.
use mathlib.Core.HLevel.{⊥_prop}
use mathlib.Core.List.{
  [], ◌∷◌, Mem, Nodup, Nodup-cons, Nodup-nil, not-mem-nil, mem-cons, mem-cons_self, mem-cons_of_mem,
}
use mathlib.Core.Logic.Or
use mathlib.Core.Logic.{◌≢◌, ite, if_pos, if_neg}
use mathlib.Core.Option.{some}
use mathlib.Core.Path.{◌≡◌, refl}
use native.Mathlib.Omega.{arith}
use entity_resolution_engine.Base.Lists.{All, All-both, All-weaken}
use entity_resolution_engine.Base.Dict.{Dict, keys, get, put}

module _ {ℓ} {K V : Type ℓ} (dec : Discrete K) where
  not-mem-put :
      (j k : K) (v : V) (d : Dict K V) → ¬ Mem j (keys d) → j ≢ k → ¬ Mem j (keys (put dec k v d))
  unfolding put
  not-mem-put j k v [] h ne = λ m. Or.elim ⊥_prop (mem-cons.0 m) ne not-mem-nil
  not-mem-put j k v ((i, w) ∷ d) h ne = elim (dec i k) [
    | yes p ↦ rw (if_pos _ p) h
    | no q ↦ rw (if_neg _ q) (λ m.
        Or.elim ⊥_prop (mem-cons.0 m) (λ e. h (rw e mem-cons_self))
          (not-mem-put j k v d (λ n. h (mem-cons_of_mem i n)) ne))
  ]

  pub put-Nodup : (k : K) (v : V) (d : Dict K V) → Nodup (keys d) → Nodup (keys (put dec k v d))
  unfolding put
  put-Nodup k v [] h = Nodup-cons.1 (not-mem-nil, Nodup-nil)
  put-Nodup k v ((i, w) ∷ d) h = elim (dec i k) [
    | yes p ↦ rw (if_pos _ p) h
    | no q ↦
        let (new, rest) = Nodup-cons.0 h in
        rw (if_neg _ q) (Nodup-cons.1 (not-mem-put i k v d new q, put-Nodup k v d rest))
  ]

  other_keys : (k : K) (d : Dict K V) → ¬ Mem k (keys d) → All (λ e. k ≢ e.0) d
  other_keys k [] h = tt
  other_keys k (e ∷ d) h =
      (λ p. h (rw p mem-cons_self), other_keys k d (λ m. h (mem-cons_of_mem e.0 m)))

  pub get-entries : (d : Dict K V) → Nodup (keys d) → All (λ e. get dec e.0 d ≡ some e.1) d
  unfolding get
  get-entries [] h = tt
  get-entries ((k, v) ∷ d) h =
      let (new, rest) = Nodup-cons.0 h in
      (
        if_pos (dec k k) refl (some v) (get dec k d),
        All-weaken {A = K × V} (λ e. (k ≢ e.0) × (get dec e.0 d ≡ some e.1))
            (λ e. ite (dec k e.0) (some v) (get dec e.0 d) ≡ some e.1)
            (λ e p. rw (if_neg (dec k e.0) p.0) p.1) d
            (All-both {A = K × V} (λ e. k ≢ e.0) (λ e. get dec e.0 d ≡ some e.1) d
              (other_keys k d new) (get-entries d rest)),
      )

  pub mem-of_get : (k : K) {v : V} (d : Dict K V) → get dec k d ≡ some v → Mem (k, v) d
  unfolding get
  mem-of_get k [] h = absurd (ground arith)
  mem-of_get k {v} ((j, w) ∷ d) h = elim (dec j k) [
    | yes p ↦ let same : ◌≡◌ {A = K × V} (k, v) (j, w) = ground arith in rw same mem-cons_self
    | no q ↦ mem-cons_of_mem (j, w) (mem-of_get k d (ground arith))
  ]
