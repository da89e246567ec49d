-- ===== src/Outcome/Ensures.antt =====
-- What a call ensures of its value, or whenever it has one.
use clienthellod.Common.{◌≡◌, refl, subst, Option, none, some}
use clienthellod.Outcome.{Error, Result, ok, err, panic, stuck, ◌>>=◌, some_or}

abbrev pub Ensures {ℓ} : {A : Type ℓ} → (A → Type 0) → Result A → Type 0
Ensures P (ok a) = P a
Ensures P (err e) = Unit {0}
Ensures P panic = ⊥
Ensures P stuck = ⊥

-- Two calls, one after the other.
pub >>=-Ensures {ℓ κ} :
    {A : Type ℓ} {B : Type κ} (P : A → Type 0) (Q : B → Type 0) (r : Result A) (next : A → Result B)
    → Ensures P r
    → ((a : A) → P a → Ensures Q (next a))
    → Ensures Q (r >>= next)
>>=-Ensures P Q (ok a) next h k = k a h
>>=-Ensures P Q (err e) next h k = tt
>>=-Ensures P Q panic next h k = absurd h
>>=-Ensures P Q stuck next h k = absurd h

pub ok-Ensures {ℓ} :
    {A : Type ℓ} (P : A → Type 0) {r : Result A} {a : A} → Ensures P r → r ≡ ok a → P a
ok-Ensures P h e = subst (Ensures P) e h

pub Ensures-weaken {ℓ} :
    {A : Type ℓ} (P Q : A → Type 0)
    → ((a : A) → P a → Q a)
    → (r : Result A) → Ensures P r
    → Ensures Q r
Ensures-weaken P Q f (ok a) h = f a h
Ensures-weaken P Q f (err e) h = tt
Ensures-weaken P Q f panic h = h
Ensures-weaken P Q f stuck h = h

pub some_or-Ensures {ℓ} :
    {A : Type ℓ} (P : A → Type 0) (e : Error) (o : Option A)
    → ((a : A) → o ≡ some a → P a)
    → Ensures P (some_or e o)
some_or-Ensures P e none h = tt
some_or-Ensures P e (some a) h = h a refl

-- What a value is, when there is one.
abbrev pub Whenever {ℓ} : {A : Type ℓ} → (A → Type 0) → Result A → Type 0
Whenever P (ok a) = P a
Whenever P (err e) = Unit {0}
Whenever P panic = Unit {0}
Whenever P stuck = Unit {0}

pub >>=-Whenever {ℓ κ} :
    {A : Type ℓ} {B : Type κ} (P : A → Type 0) (Q : B → Type 0) (r : Result A) (next : A → Result B)
    → Whenever P r
    → ((a : A) → P a → Whenever Q (next a))
    → Whenever Q (r >>= next)
>>=-Whenever P Q (ok a) next h k = k a h
>>=-Whenever P Q (err e) next h k = tt
>>=-Whenever P Q panic next h k = tt
>>=-Whenever P Q stuck next h k = tt

pub ok-Whenever {ℓ} :
    {A : Type ℓ} (P : A → Type 0) {r : Result A} {a : A} → Whenever P r → r ≡ ok a → P a
ok-Whenever P h e = subst (Whenever P) e h

pub Ensures-Whenever {ℓ} : {A : Type ℓ} (P : A → Type 0) (r : Result A) → Ensures P r → Whenever P r
Ensures-Whenever P (ok a) h = h
Ensures-Whenever P (err e) h = tt
Ensures-Whenever P panic h = tt
Ensures-Whenever P stuck h = tt

pub anything {ℓ} : {A : Type ℓ} (r : Result A) → Whenever (λ a. Unit {0}) r
anything (ok a) = tt
anything (err e) = tt
anything panic = tt
anything stuck = tt

pub Whenever-weaken {ℓ} :
    {A : Type ℓ} (P Q : A → Type 0)
    → ((a : A) → P a → Q a)
    → (r : Result A) → Whenever P r
    → Whenever Q r
Whenever-weaken P Q f (ok a) h = f a h
Whenever-weaken P Q f (err e) h = tt
Whenever-weaken P Q f panic h = tt
Whenever-weaken P Q f stuck h = tt
