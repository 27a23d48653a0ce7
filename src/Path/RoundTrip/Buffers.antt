-- ===== src/Path/RoundTrip/Buffers.antt =====
-- Writing names into a zeroed identifier.
use icariusos.Base.{
  ℕ, zero, suc, ◌+◌, ◌-◌, ◌≤◌, ◌≡◌, refl, ap, ◌∙◌, arith, true, List, [], ◌∷◌, ◌++◌, take, drop,
  replicate, length, length-append, leb, some,
}
use icariusos.Path.Parser.{Node, identifier_size, write}

-- An identifier that holds these characters, and zeros behind them.
abbrev pub padded : List ℕ → Node
padded name = name ++ replicate (identifier_size - length name) 0

pub take-append : (a b : List ℕ) → take (length a) (a ++ b) ≡ a
take-append [] b = refl
take-append (x ∷ a) b = ap (λ r. x ∷ r) (take-append a b)

drop-append : (a b : List ℕ) (n : ℕ) → drop (length a + n) (a ++ b) ≡ drop n b
drop-append [] b n = ap (λ (k : ℕ). drop k b) (omega arith)
drop-append (x ∷ a) b n =
    let more : suc (length a) + n ≡ suc (length a + n) = omega arith in rw more (drop-append a b n)

drop-replicate : (n k : ℕ) → drop {A = ℕ} n (replicate k 0) ≡ replicate (k - n) 0
drop-replicate zero k = let same : k ≡ k - 0 = omega arith in ap (λ (m : ℕ). replicate m 0) same
drop-replicate (suc n) zero =
    let same : 0 ≡ 0 - suc n = omega arith in ap (λ (m : ℕ). replicate m 0) same
drop-replicate (suc n) (suc k) =
    let same : k - n ≡ suc k - suc n = omega arith in
    drop-replicate n k ∙ ap (λ (m : ℕ). replicate m 0) same

-- A write right behind what is held makes that longer.
pub write-padded :
    (name bytes : List ℕ)
    → length name + length bytes ≤ identifier_size
    → write (padded name) (length name) bytes ≡ some (padded (name ++ bytes))
unfolding write
write-padded name bytes fits =
    let inside : leb (length name + length bytes) identifier_size ≡ true = ground arith in
    rw (inside, take-append, drop-append, drop-replicate)
      (ap (λ (n : ℕ). some (name ++ bytes ++ replicate n 0))
        (omega (arith, length-append name bytes)))

-- A write of what is held again changes nothing.
pub write-again :
    (name : List ℕ)
    → length name ≤ identifier_size
    → write (padded name) 0 name ≡ some (padded name)
unfolding write
write-again name fits =
    let here : 0 + length name ≡ length name + 0 = omega arith in
    let inside : leb (length name + 0) identifier_size ≡ true = ground arith in
    rw (here, inside, drop-append)
