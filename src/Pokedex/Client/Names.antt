-- ===== src/Pokedex/Client/Names.antt =====
-- pokedex-server.c and pokedex-client.c: the names of a directory on their way to `filler`.
use sisoputnfrba_tp_2016_2c.Base.{
  ℕ, zero, suc, ◌<◌, ◌≤◌, ◌≡◌, refl, ap, true, false, List, [], ◌∷◌, ◌++◌, arith, ◌==◌, length,
  take, Bool-cases, inl, inr, lt→ltb, ltb, length-append,
}
use mathlib.Core.List.{reverse_aux, reverse, reverse-reverse}
use sisoputnfrba_tp_2016_2c.Pokedex.Search.{name_bytes}
use sisoputnfrba_tp_2016_2c.Pokedex.Search.Create.{NoZero, nil, cons}
use sisoputnfrba_tp_2016_2c.Pokedex.Nodes.{name_buffer}
use sisoputnfrba_tp_2016_2c.Pokedex.Requests.{c_string}
use sisoputnfrba_tp_2016_2c.Pokedex.Client.{split_names, not_empty}
use sisoputnfrba_tp_2016_2c.Pokedex.Client.Answers.{listed_bytes}

length-take : (n : ℕ) (bs : List ℕ) → n ≤ length bs → length (take n bs) ≡ n
length-take zero bs h = refl
length-take (suc n) [] h = absurd (omega arith)
length-take (suc n) (b ∷ bs) h = ap suc (length-take n bs (omega arith))

-- The buffer holds its terminator.
abbrev pub Terminated : List ℕ → Type 0
Terminated bs = length (c_string bs) < length bs

pub length-listed_bytes :
    (bs : List ℕ) → Terminated bs → length (listed_bytes bs) ≡ suc (length (c_string bs))
length-listed_bytes bs h = length-take (suc (length (c_string bs))) bs (omega arith)

pub c_string-listed_bytes : (bs : List ℕ) → Terminated bs → c_string (listed_bytes bs) ≡ c_string bs
unfolding c_string name_bytes
c_string-listed_bytes [] h = refl
c_string-listed_bytes (b ∷ bs) h = elim (Bool-cases (b == 0)) [
  | inl z ↦ rw z refl
  | inr nz ↦
      let h' = rw nz at h in rw nz (ap (◌∷◌ b) (c_string-listed_bytes bs (omega (arith, h'))))
]

-- A word that `strtok` gives back whole: not empty, without a comma.
pub data IsWord : List ℕ → Type 0 where
  last : {b : ℕ} → (b == b',') ≡ false → IsWord (b ∷ [])
  more : {b : ℕ} {w : List ℕ} → (b == b',') ≡ false → IsWord w → IsWord (b ∷ w)

split_names-word :
    (word w rest : List ℕ)
    → IsWord w
    → split_names word (w ++ (b',' ∷ rest)) ≡ reverse (reverse_aux w word) ∷ split_names [] rest
unfolding split_names
split_names-word word w rest (last c) = rw c refl
split_names-word word w rest (more {b} c i) = rw c (split_names-word (b ∷ word) _ rest i)

c_string-word :
    (w rest : List ℕ) → NoZero w → c_string (w ++ (b',' ∷ rest)) ≡ w ++ (b',' ∷ c_string rest)
unfolding c_string name_bytes
c_string-word [] rest nil = refl
c_string-word (b ∷ w) rest (cons z i) = rw z (ap (◌∷◌ b) (c_string-word w rest i))

-- The names of a listing, without their positions.
abbrev pub only_names : List (ℕ × List ℕ) → List (List ℕ)
only_names [] = []
only_names ((p, n) ∷ ps) = n ∷ only_names ps

abbrev pub AllNoZero : List (ℕ × List ℕ) → Type 0
AllNoZero [] = Unit {0}
AllNoZero ((p, n) ∷ ps) = NoZero n × AllNoZero ps

abbrev pub AllWords : List (List ℕ) → Type 0
AllWords [] = Unit {0}
AllWords (n ∷ ns) = IsWord n × AllWords ns

IsWord-some : (w : List ℕ) → IsWord w → ltb 0 (length w) ≡ true
IsWord-some [] i = elim i [ ]
IsWord-some (b ∷ w) i = lt→ltb 0 (suc (length w)) (omega arith)

-- The names that osada_readdir has put into its buffer come out of `strtok` in the same order, if
-- none is empty or holds a comma.
pub split_names-name_buffer :
    (ps : List (ℕ × List ℕ))
    → AllNoZero ps
    → AllWords (only_names ps)
    → not_empty (split_names [] (c_string (name_buffer ps))) ≡ only_names ps
unfolding name_buffer not_empty c_string name_bytes split_names
split_names-name_buffer [] z i = refl
split_names-name_buffer ((p, n) ∷ ps) (z, zs) (i, is) =
    rw
      (
        c_string-word n (name_buffer ps) z,
        split_names-word [] n (c_string (name_buffer ps)) i,
        reverse-reverse n,
        IsWord-some n i,
      )
      (ap (◌∷◌ n) (split_names-name_buffer ps zs is))

pub Terminated-name_buffer : (ps : List (ℕ × List ℕ)) → AllNoZero ps → Terminated (name_buffer ps)
unfolding name_buffer c_string name_bytes
Terminated-name_buffer [] z = omega arith
Terminated-name_buffer ((p, n) ∷ ps) (z, zs) =
    rw (c_string-word n (name_buffer ps) z, length-append n, length-append n)
      (omega (arith, Terminated-name_buffer ps zs))
