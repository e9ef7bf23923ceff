-- ===== src/Base/Steady.antt =====
-- Code that throws nothing: it returns, or it runs into undefined behaviour.
use mathlib.Core.Path.{◌≡◌, refl}
use buenzli_coin.Base.Exec.{Exec, done, throws, undefined, map_exec, bind_exec}

abbrev pub NeverThrows {ℓ} : {A : Type ℓ} → Exec A → Type 0
NeverThrows (done a) = Unit
NeverThrows (throws e) = ⊥
NeverThrows undefined = Unit

pub NeverThrows-map {ℓ κ} :
    {A : Type ℓ} {B : Type κ} (f : A → B) (m : Exec A) → NeverThrows m → NeverThrows (map_exec f m)
NeverThrows-map f (done a) h = tt
NeverThrows-map f (throws e) h = h
NeverThrows-map f undefined h = tt

pub NeverThrows-bind {ℓ κ} :
    {A : Type ℓ} {B : Type κ} (m : Exec A) (f : A → Exec B)
    → NeverThrows m
    → ((a : A) → NeverThrows (f a))
    → NeverThrows (bind_exec m f)
NeverThrows-bind (done a) f h k = k a
NeverThrows-bind (throws e) f h k = absurd h
NeverThrows-bind undefined f h k = tt

-- A chain of three calls, read from either end.
pub bind_exec_assoc {ℓ κ ι} :
    {A : Type ℓ} {B : Type κ} {C : Type ι} (m : Exec A) (f : A → Exec B) (g : B → Exec C)
    → bind_exec (bind_exec m f) g ≡ bind_exec m (λ a. bind_exec (f a) g)
bind_exec_assoc (done a) f g = refl
bind_exec_assoc (throws e) f g = refl
bind_exec_assoc undefined f g = refl

pub bind_exec-done {ℓ} : {A : Type ℓ} (m : Exec A) → bind_exec m done ≡ m
bind_exec-done (done a) = refl
bind_exec-done (throws e) = refl
bind_exec-done undefined = refl
