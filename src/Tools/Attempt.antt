-- ===== src/Tools/Attempt.antt =====
-- What a call inside a tool gives: a value, a ToolError, or any other exception.
use master_control.Prelude.{arith, ◌≡◌, refl, String}

pub data Attempt (A : Type 0) : Type 0 where
  done : A → Attempt A
  failed : String → Attempt A
  escaped : String → Attempt A

-- The rest of a method, on the value of a call that returned.
unfoldable pub follow : {A B : Type 0} → Attempt A → (A → Attempt B) → Attempt B
follow (done a) rest = rest a
follow (failed text) rest = failed text
follow (escaped text) rest = escaped text

-- The same where the calls change a world.
unfoldable pub chain : {A B W : Type 0} → Attempt A × W → (A → W → Attempt B × W) → Attempt B × W
chain (done a, w) rest = rest a w
chain (failed text, w) rest = (failed text, w)
chain (escaped text, w) rest = (escaped text, w)

-- What the first call and the rest keep, they keep one after the other.
pub chain-keeps :
    {A B W : Type 0} (P : W → Type 0) (x : Attempt A × W) (rest : A → W → Attempt B × W)
    → P x.1
    → ((a : A) → x.0 ≡ done a → P (rest a x.1).1)
    → P (chain x rest).1
unfolding chain
chain-keeps P (done a, w) rest h k = k a refl
chain-keeps P (failed text, w) rest h k = h
chain-keeps P (escaped text, w) rest h k = h

-- What a chain that returned went through.
pub done-follow :
    {A B : Type 0} (x : Attempt A) (rest : A → Attempt B) (b : B)
    → follow x rest ≡ done b
    → (a : A) × (x ≡ done a) × (rest a ≡ done b)
unfolding follow
done-follow (done a) rest b h = (a, refl, h)
done-follow (failed text) rest b h = ground (arith, h)
done-follow (escaped text) rest b h = ground (arith, h)

pub done-chain :
    {A B W : Type 0} (x : Attempt A × W) (rest : A → W → Attempt B × W) (b : B)
    → (chain x rest).0 ≡ done b
    → (a : A) × (x.0 ≡ done a) × ((rest a x.1).0 ≡ done b)
unfolding chain
done-chain (done a, w) rest b h = (a, refl, h)
done-chain (failed text, w) rest b h = ground (arith, h)
done-chain (escaped text, w) rest b h = ground (arith, h)

pub chain-done :
    {A B W : Type 0} (x : Attempt A × W) (rest : A → W → Attempt B × W) (a : A)
    → x.0 ≡ done a
    → chain x rest ≡ rest a x.1
unfolding chain
chain-done x rest a h = rw h refl
