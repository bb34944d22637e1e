-- ===== src/Prelude/Dict.antt =====
-- Go maps as association lists: `m[k]`, `m[k] = v` and `delete(m, k)`, over keys with an equality test.
use mathlib.Core.Path.{◌≡◌, refl}
use mathlib.Core.Logic.{◌↔◌}
use mathlib.Core.Bool.{Bool, true, ◌&&◌}
use mathlib.Core.List.{List, [], ◌∷◌}
use mathlib.Core.Option.{Option, none, some}
use native.Mathlib.Omega.{arith}
use Prim.Native.Nat.{ℕ}
use friend_net.Prelude.Tests.{if◌then◌else◌, ◌==◌, ==_iff}
use friend_net.Prelude.Text.{Bytes, bytes_eq, bytes_eq_iff}

pub record Eq {ℓ} (K : Type ℓ) : Type ℓ where
  pub beq : K → K → Bool
  pub beq_iff : (a b : K) → (beq a b ≡ true) ↔ (a ≡ b)

instance abbrev pub nat_eq : Eq ℕ
nat_eq = record { beq = ◌==◌; beq_iff = ==_iff }

instance abbrev pub text_eq : Eq Bytes
text_eq = record { beq = bytes_eq; beq_iff = bytes_eq_iff }

abbrev pub pair_beq {ℓ κ} : {A : Type ℓ} {B : Type κ} ⦃a : Eq A⦄ ⦃b : Eq B⦄ → A × B → A × B → Bool
pair_beq ⦃a⦄ ⦃b⦄ x y = a.beq x.0 y.0 && b.beq x.1 y.1

pub pair_beq_iff {ℓ κ} :
    {A : Type ℓ} {B : Type κ} ⦃a : Eq A⦄ ⦃b : Eq B⦄ (x y : A × B) → (pair_beq x y ≡ true) ↔ (x ≡ y)
pair_beq_iff ⦃a⦄ ⦃b⦄ (p, q) (r, s) = (
  λ e. ground (arith, a.beq_iff p r, b.beq_iff q s),
  λ e. ground (arith, a.beq_iff p r, b.beq_iff q s),
)

instance abbrev pub pair_eq {ℓ κ} : {A : Type ℓ} {B : Type κ} ⦃a : Eq A⦄ ⦃b : Eq B⦄ → Eq (A × B)
pair_eq = record { beq = pair_beq; beq_iff = pair_beq_iff }

abbrev pub Dict {ℓ κ} : Type ℓ → Type κ → Type (ℓ ⊔ κ)
Dict K V = List (K × V)

pub beq_refl {ℓ} : {K : Type ℓ} ⦃e : Eq K⦄ (k : K) → e.beq k k ≡ true
beq_refl ⦃e⦄ k = (e.beq_iff k k).1 refl

module _ {ℓ κ} {K : Type ℓ} {V : Type κ} ⦃e : Eq K⦄ where
  unfoldable pub get : List (K × V) → K → Option V
  get [] k = none
  get ((j, v) ∷ m) k = if e.beq j k then some v else get m k

  unfoldable pub delete : List (K × V) → K → List (K × V)
  delete [] k = []
  delete ((j, v) ∷ m) k = let rest = delete m k in if e.beq j k then rest else (j, v) ∷ rest

  unfoldable pub put : List (K × V) → K → V → List (K × V)
  unfolding delete
  put m k v = (k, v) ∷ delete m k

  pub get-delete :
      (m : List (K × V)) (k j : K) → get (delete m k) j ≡ (if e.beq k j then none else get m j)
  unfolding get delete
  get-delete [] k j = ground arith
  get-delete ((i, v) ∷ m) k j =
      ground (arith, get-delete m k j, e.beq_iff i k, e.beq_iff i j, e.beq_iff k j)

  pub get-put :
      (m : List (K × V)) (k j : K) (v : V)
      → get (put m k v) j ≡ (if e.beq k j then some v else get m j)
  unfolding get put
  get-put m k j v = ground (arith, get-delete m k j)
