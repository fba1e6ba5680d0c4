-- ===== src/Go/Results.antt =====
-- What a successful call says of the calls that it makes.
use signet_min_bundler.Prelude.{◌≡◌, ◌≢◌, ◌⊎◌, inl, inr, refl, Text}
use signet_min_bundler.Go.{Result, ok, err, panic, ◌>>=◌, wrap, Answer, answer, failure}

pub >>=-eq-ok {ℓ κ} :
    {A : Type ℓ} {B : Type κ} (call : Result A) (next : A → Result B) {w : B}
    → (call >>= next) ≡ ok w
    → (v : A) × (call ≡ ok v) × (next v ≡ ok w)
>>=-eq-ok panic next e = cc
>>=-eq-ok (err text) next e = cc
>>=-eq-ok (ok v) next e = (v, refl, e)

pub wrap-eq-ok {ℓ} :
    {A : Type ℓ} (context : Text) (m : Result A) {a : A} → wrap context m ≡ ok a → m ≡ ok a
wrap-eq-ok context (ok a) h = h
wrap-eq-ok context (err e) h = cc
wrap-eq-ok context panic h = cc

pub Answer-cases {ℓ} :
    {A : Type ℓ} (a : Answer A) → ((v : A) × (a ≡ answer v)) ⊎ ((e : Text) × (a ≡ failure e))
Answer-cases (answer v) = inl (v, refl)
Answer-cases (failure e) = inr (e, refl)

pub Result-cases {ℓ} : {A : Type ℓ} (r : Result A) → ((v : A) × (r ≡ ok v)) ⊎ ((v : A) → r ≢ ok v)
Result-cases (ok v) = inl (v, refl)
Result-cases (err e) = inr (λ v. cc)
Result-cases panic = inr (λ v. cc)
