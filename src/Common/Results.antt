-- ===== src/Common/Results.antt =====
-- Code that may throw an `Error`: the value or the error's message.
use pi_ptc_advanced.Common.Strings.{Text}

pub data Result {ℓ} (V : Type ℓ) : Type ℓ where
  ok : V → Result V
  err : Text → Result V

-- `try { return f(await value) } catch (e) { return g(e.message) }`
abbrev pub settle {ℓ κ} : {V : Type ℓ} {W : Type κ} → (V → W) → (Text → W) → Result V → W
settle f g (ok v) = f v
settle f g (err why) = g why

infixl 5 ◌>>=◌
abbrev pub ◌>>=◌ {ℓ κ} : {V : Type ℓ} {W : Type κ} → Result V → (V → Result W) → Result W
v >>= f = settle f err v

infixl 5 ◌>>◌
abbrev pub ◌>>◌ {ℓ} : {W : Type ℓ} → Result (Unit {0}) → Result W → Result W
v >> w = settle (λ _. w) err v

-- What holds on both ways out of a `try`.
pub settle-both {ℓ κ μ} :
    {V : Type ℓ} {W : Type κ} (P : W → Type μ) (f : V → W) (g : Text → W)
    → ((v : V) → P (f v))
    → ((why : Text) → P (g why))
    → (r : Result V) → P (settle f g r)
settle-both P f g when_ok when_err (ok v) = when_ok v
settle-both P f g when_ok when_err (err why) = when_err why
