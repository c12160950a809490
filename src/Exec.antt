-- ===== src/Exec.antt =====
-- Code that talks to a server: it changes a world, and returns a value or an error. What was written
-- before an error stays written, so the world comes back beside the error too.
use omni_cluster_operator.Base.{String, ◌<>◌, ◌≡◌, refl}
use omni_cluster_operator.External.{Error, Result, ok, err}

abbrev pub Exec {ℓ} : Type ℓ → Type ℓ → Type ℓ
Exec W A = W → Result A × W

module _ {ℓ} {W A : Type ℓ} where
  abbrev pub pure : A → Exec W A
  pure a w = (ok a, w)

  abbrev pub fail : Error → Exec W A
  fail e w = (err e, w)

  abbrev pub lift : Result A → Exec W A
  lift r w = (r, w)

  -- `value, err := call`, with the error as a value.
  abbrev pub attempt : Exec W A → Exec W (Result A)
  attempt m w = let (r, w') = m w in (ok r, w')

  -- A read, which leaves the world alone.
  abbrev pub reads : (W → Result A) → Exec W (Result A)
  reads f w = (ok (f w), w)

module _ {ℓ} {W A B : Type ℓ} where
  abbrev pub continue : Result A → (A → Exec W B) → Exec W B
  continue (ok a) f w = f a w
  continue (err e) f w = (err e, w)

  infixl 10 ◌>>=◌ ◌>>◌
  abbrev pub ◌>>=◌ : Exec W A → (A → Exec W B) → Exec W B
  ◌>>=◌ m f w = let (r, w') = m w in continue r f w'

  abbrev pub ◌>>◌ : Exec W A → Exec W B → Exec W B
  m >> n = m >>= λ _. n

-- `fmt.Errorf("prefix: %w", err)`: the text grows, and what the error wraps stays to be asked about.
abbrev pub wrapped : String → Error → Error
wrapped prefix e = record e { message = prefix <> e.message }

module _ {ℓ} {W A B : Type ℓ} where
  -- A sequence that returned has run its first part to a value, and ended as the rest does from there.
  pub >>=-ok :
      (m : Exec W A) (f : A → Exec W B) (w : W) (b : B)
      → ((m >>= f) w).0 ≡ ok b
      → (a : A) × ((m w).0 ≡ ok a) × ((m >>= f) w ≡ f a (m w).1)
  >>=-ok m f w b h = go (m w) refl h
    where
      go :
          (p : Result A × W)
          → m w ≡ p
          → (continue p.0 f p.1).0 ≡ ok b
          → (a : A) × ((m w).0 ≡ ok a) × ((m >>= f) w ≡ f a (m w).1)
      go (ok a, v) e h = (a, rw (e), rw (e))
      go (err e', v) e h = absurd (cc h)
