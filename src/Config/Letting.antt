-- ===== src/Config/Letting.antt =====
-- Rules for what the checks of config/config.go let through, one for each way to begin a check.
use frps_gateway.Base.{ℕ, ◌≡◌, refl, subst, ℤ, Bool, true, false, if◌then◌else◌, Option, none, some}
use frps_gateway.Duration.Parse.{Parsed, parsed, invalid}
use frps_gateway.Config.{
  ConfigLibrary, ConfigError, Checked, valid, refused, require, with_duration, with_go_duration,
}

-- What holds of a section or a configuration if it is let through.
pub record Yields {A : Type 0} (P : A → Type 0) (c : Checked A) : Type 0 where
  pub at : (a : A) → c ≡ valid a → P a

module _ {A : Type 0} {P : A → Type 0} where
  pub Yields-valid : (a : A) → P a → Yields P (valid a)
  Yields-valid a h = record { at = λ b q. subst P (valid_injective b q) h }
    where
      valid_injective : (b : A) → valid a ≡ valid b → a ≡ b
      valid_injective b q = cc

  pub Yields-weaken :
      {Q : A → Type 0} (c : Checked A) → ((a : A) → Q a → P a) → Yields Q c → Yields P c
  Yields-weaken c f h = record { at = λ a q. f a (h.at a q) }

  pub Yields-if :
      (b : Bool) (x : ConfigError) (k : Checked A)
      → (b ≡ true → Yields P k)
      → Yields P (if b then k else refused x)
  Yields-if true x k h = h refl
  Yields-if false x k h = record { at = λ a q. cc q }

  pub Yields-either :
      (b : Bool) (k l : Checked A)
      → (b ≡ true → Yields P k)
      → (b ≡ false → Yields P l)
      → Yields P (if b then k else l)
  Yields-either true k l h h' = h refl
  Yields-either false k l h h' = h' refl

  pub Yields-require :
      (b : Bool) (x : ConfigError) (k : Checked A)
      → (b ≡ true → Yields P k)
      → Yields P (require b x k)
  unfolding require
  Yields-require b x k h = Yields-if b x k h

  pub Yields-with_duration :
      (lib : ConfigLibrary) (p : Parsed) (test : ℕ → Bool) (x : ConfigError) (k : ℕ → Checked A)
      → ((t : ℕ) → test t ≡ true → Yields P (k t))
      → Yields P (with_duration lib p test x k)
  unfolding with_duration
  Yields-with_duration lib (invalid e) test x k h = record { at = λ a q. cc q }
  Yields-with_duration lib (parsed t) test x k h = Yields-if (test t) x (k t) (h t)

  pub Yields-with_go_duration :
      (lib : ConfigLibrary) (p : Option ℤ) (test : ℤ → Bool) (x : ConfigError) (k : ℤ → Checked A)
      → ((t : ℤ) → test t ≡ true → Yields P (k t))
      → Yields P (with_go_duration lib p test x k)
  unfolding with_go_duration
  Yields-with_go_duration lib none test x k h = record { at = λ a q. cc q }
  Yields-with_go_duration lib (some t) test x k h = Yields-if (test t) x (k t) (h t)
