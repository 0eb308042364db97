-- ===== src/Pokedex/Walk/Leads.antt =====
-- Where a path leads in the file table, and where a walk over it ends.
use sisoputnfrba_tp_2016_2c.Base.{ℕ, ◌<◌, ◌≡◌, List, [], ◌∷◌, subst}
use sisoputnfrba_tp_2016_2c.Pokedex.State.{
  file_blocks_mount, Status, Place, at, LockType, deleted, regular, directory, OsadaFile, Server,
  semaphore_lock,
}
use sisoputnfrba_tp_2016_2c.Pokedex.Search.Wanted.{first_unique}
use sisoputnfrba_tp_2016_2c.Pokedex.Walk.{Walk, arrived, refused, astray}
use sisoputnfrba_tp_2016_2c.Pokedex.Walk.Steps.{Child}

-- The entry is a regular file, a directory, or in use.
abbrev pub IsRegular : Server → ℕ → Type 0
IsRegular s p = (s.table p).state ≡ regular

abbrev pub IsDir : Server → ℕ → Type 0
IsDir s p = (s.table p).state ≡ directory

abbrev pub InUse : Server → ℕ → Type 0
InUse s p = (s.table p).state ≡ deleted → ⊥

-- Of no entry: a walk with at least one word that always sets the position.
abbrev pub Never : ℕ → Type 0
Never p = ⊥

-- The words name entries one below the other, from the place `here` down to the entry `p`: those on
-- the way as `Via` says, and the last one as `Last` says.
pub data Leads (tab : ℕ → OsadaFile) (Via Last : ℕ → Type 0) (p : ℕ)
    : List (List ℕ) → Place → Type 0 where
  last :
      (word : List ℕ) (here : Place)
      → Child tab word here p
      → Last p
      → Leads tab Via Last p (word ∷ []) here
  step :
      (word next : List ℕ) (words : List (List ℕ)) (here : Place) (q : ℕ)
      → Child tab word here q
      → Via q
      → Leads tab Via Last p (next ∷ words) (at q)
      → Leads tab Via Last p (word ∷ next ∷ words) here

abbrev pub NoWay : (ℕ → OsadaFile) → (ℕ → Type 0) → (ℕ → Type 0) → List (List ℕ) → Place → Type 0
NoWay tab Via Last words here = (p : ℕ) → Leads tab Via Last p words here → ⊥

-- A walk that ends with one lock, that of the entry to which the words lead, or with none.
pub data Ends (s : Server) (Via Good Lost : ℕ → Type 0) (words : List (List ℕ)) (here : Place)
    : Walk → Type 0 where
  ends_at :
      (t : LockType) (p : ℕ)
      → p < file_blocks_mount
      → Good p
      → Leads s.table Via Good p words here
      → Ends s Via Good Lost words here (arrived (at p) (semaphore_lock t p s))
  ends_refused :
      (c : Status)
      → NoWay s.table Via Good words here
      → NoWay s.table Via Lost words here
      → Ends s Via Good Lost words here (refused c s)
  ends_astray :
      (t : LockType) (p : ℕ)
      → p < file_blocks_mount
      → Lost p
      → Leads s.table Via Lost p words here
      → Ends s Via Good Lost words here (astray (at p) (semaphore_lock t p s))

Leads-Never :
    (tab : ℕ → OsadaFile) (Via : ℕ → Type 0) (p : ℕ) (words : List (List ℕ)) (here : Place)
    → Leads tab Via Never p words here
    → ⊥
Leads-Never tab Via p words here (last word h c never) = never
Leads-Never tab Via p words here (step word next ws h q c v l) =
    Leads-Never tab Via p (next ∷ ws) (at q) l

pub NoWay-Never :
    (tab : ℕ → OsadaFile) (Via : ℕ → Type 0) (words : List (List ℕ)) (here : Place)
    → NoWay tab Via Never words here
NoWay-Never tab Via words here p l = Leads-Never tab Via p words here l

-- No entry of the first word, or none that may stand on the way.
pub NoWay-Child :
    (tab : ℕ → OsadaFile) (Via Last : ℕ → Type 0) (word : List ℕ) (words : List (List ℕ))
    (here : Place)
    → ((q : ℕ) → Child tab word here q → ⊥)
    → NoWay tab Via Last (word ∷ words) here
NoWay-Child tab Via Last word words here none p (last w h c g) = none p c
NoWay-Child tab Via Last word words here none p (step w n ws h q c v l) = none q c

pub NoWay-last :
    (tab : ℕ → OsadaFile) (Via Last : ℕ → Type 0) (word : List ℕ) (here : Place)
    → ((q : ℕ) → Child tab word here q → Last q → ⊥)
    → NoWay tab Via Last (word ∷ []) here
NoWay-last tab Via Last word here none p (last w h c g) = none p c g

pub NoWay-via :
    (tab : ℕ → OsadaFile) (Via Last : ℕ → Type 0) (word next : List ℕ) (words : List (List ℕ))
    (here : Place)
    → ((q : ℕ) → Child tab word here q → Via q → ⊥)
    → NoWay tab Via Last (word ∷ next ∷ words) here
NoWay-via tab Via Last word next words here none p (step w n ws h q c v l) = none q c v

pub NoWay-step :
    (tab : ℕ → OsadaFile) (Via Last : ℕ → Type 0) (word next : List ℕ) (words : List (List ℕ))
    (here : Place) (r : ℕ)
    → Child tab word here r
    → NoWay tab Via Last (next ∷ words) (at r)
    → NoWay tab Via Last (word ∷ next ∷ words) here
NoWay-step tab Via Last word next words here r k none p (step w n ws h q c v l) = none p (
    subst (λ x. Leads tab Via Last p (next ∷ words) (at x))
      (first_unique tab word here here q r c k) l)

-- One word more in front.
pub Ends-step :
    {s : Server} {Via Good Lost : ℕ → Type 0} {w : Walk} (word next : List ℕ)
    (words : List (List ℕ)) (here : Place) (q : ℕ)
    → Child s.table word here q
    → Via q
    → Ends s Via Good Lost (next ∷ words) (at q) w
    → Ends s Via Good Lost (word ∷ next ∷ words) here w
Ends-step word next words here q c v (ends_at t p l g k) =
    ends_at t p l g (step word next words here q c v k)
Ends-step {s} {Via} {Good} {Lost} word next words here q c v (ends_refused d m n) =
    ends_refused d (NoWay-step s.table Via Good word next words here q c m)
      (NoWay-step s.table Via Lost word next words here q c n)
Ends-step word next words here q c v (ends_astray t p l g k) =
    ends_astray t p l g (step word next words here q c v k)
