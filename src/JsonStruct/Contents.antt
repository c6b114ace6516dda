-- ===== src/JsonStruct/Contents.antt =====
-- What stands in memory: runs of bytes, words and strings with their zero, for cjson_extension.c.
use my_common.Common.{
  ℕ, zero, suc, ◌+◌, ◌/◌, ◌%◌, ◌^◌, ◌≤◌, ◌<◌, ◌≢◌, inl, Bool, true, false, Option, none, some, List,
  [], ◌∷◌, ◌++◌, length, ◌==◌, if◌then◌else◌, ◌≡◌, refl, ap, subst, ◌∙◌, arith,
}
use my_common.JsonStruct.{Bytes, put, word, copy}
use my_common.JsonStruct.Encode.{word_at, next_byte, string_at}
use my_common.JsonStruct.Within.{put-off}

abbrev pub Has : ℕ → List ℕ → Bytes → Type 0
Has a [] m = Unit {0}
Has a (b ∷ bs) m = (m a ≡ b) × Has (a + 1) bs m

pub put-Has : (bs : List ℕ) (a : ℕ) (m : Bytes) → Has a bs (put a bs m)
put-Has [] a m = tt
put-Has (b ∷ bs) a m = (
  put-off bs (a + 1) (λ x. if x == a then b else m x) a (inl (omega arith)) ∙ ground arith,
  put-Has bs (a + 1) (λ x. if x == a then b else m x),
)

-- What lies below `hi` stays where nothing below `hi` changes.
pub Has-below :
    (bs : List ℕ) (a hi : ℕ) (m m' : Bytes)
    → a + length bs ≤ hi
    → ((x : ℕ) → x < hi → m' x ≡ m x)
    → Has a bs m
    → Has a bs m'
Has-below [] a hi m m' l same h = tt
Has-below (b ∷ bs) a hi m m' l same h =
    (same a (omega arith) ∙ h.0, Has-below bs (a + 1) hi m m' (omega arith) same h.1)

pub word_at-Has : (w a : ℕ) (m : Bytes) → w < 2 ^ 32 → Has a (word w) m → word_at a m ≡ w
word_at-Has w a m l h =
    let third : m (a + 2) ≡ w / 65536 % 256 = ap m (omega arith) ∙ h.1.1.0 in
    let fourth : m (a + 3) ≡ w / 16777216 % 256 = ap m (omega arith) ∙ h.1.1.1.0 in
    omega (arith, h.0, h.1.0, third, fourth)

abbrev pub AllNonzero : List ℕ → Type 0
AllNonzero [] = Unit {0}
AllNonzero (b ∷ bs) = (b ≢ 0) × AllNonzero bs

string_at-end : (room a : ℕ) (m : Bytes) → m a ≡ 0 → string_at (suc room) a m ≡ some []
string_at-end room a m e = rw e refl

string_at-next :
    (room a b : ℕ) (s : List ℕ) (m : Bytes)
    → m a ≡ b
    → b ≢ 0
    → string_at room (a + 1) m ≡ some s
    → string_at (suc room) a m ≡ some (b ∷ s)
string_at-next room a b s m e nz h =
    let not_end : (b == 0) ≡ false = ground arith in rw (e, not_end, h) refl

pub string_at-Has :
    (s : List ℕ) (n room a : ℕ) (m : Bytes)
    → AllNonzero s
    → length s ≤ n
    → n < room
    → Has a (copy s n ++ (0 ∷ [])) m
    → string_at room a m ≡ some s
string_at-Has s n zero a m nz l r h = absurd (omega arith)
string_at-Has [] zero (suc room) a m nz l r h = string_at-end room a m h.0
string_at-Has [] (suc n) (suc room) a m nz l r h = string_at-end room a m h.0
string_at-Has (b ∷ s) zero (suc room) a m nz l r h = absurd (omega arith)
string_at-Has (b ∷ s) (suc n) (suc room) a m nz l r h =
    string_at-next room a b s m h.0 nz.0
      (string_at-Has s n room (a + 1) m nz.1 (omega arith) (omega arith) h.1)

-- The first byte of a string that was read.
data Reading (n a : ℕ) (m : Bytes) : List ℕ → Type 0 where
  at_end : m a ≡ 0 → Reading n a m []
  going_on : (t : List ℕ) → m a ≢ 0 → string_at n (a + 1) m ≡ some t → Reading n a m (m a ∷ t)

Reading-by :
    (n a : ℕ) (m : Bytes) (s : List ℕ) (b : Bool) (o : Option (List ℕ))
    → (m a == 0) ≡ b
    → string_at n (a + 1) m ≡ o
    → next_byte b (m a) o ≡ some s
    → Reading n a m s
Reading-by n a m s true o eb eo e =
    let same : [] ≡ s = cc in subst (Reading n a m) same (at_end (ground arith))
Reading-by n a m s false none eb eo e = cc
Reading-by n a m s false (some t) eb eo e =
    let same : m a ∷ t ≡ s = cc in subst (Reading n a m) same (going_on t (ground arith) eo)

string_at-Reading :
    (n a : ℕ) (m : Bytes) (s : List ℕ) → string_at (suc n) a m ≡ some s → Reading n a m s
string_at-Reading n a m s e = Reading-by n a m s (m a == 0) (string_at n (a + 1) m) refl refl e

more_by :
    (n room a : ℕ) (m : Bytes) (s : List ℕ)
    → Reading n a m s
    → ((t : List ℕ) → string_at n (a + 1) m ≡ some t → string_at room (a + 1) m ≡ some t)
    → string_at (suc room) a m ≡ some s
more_by n room a m _ (at_end z) more = string_at-end room a m z
more_by n room a m _ (going_on t nz e) more = string_at-next room a (m a) t m refl nz (more t e)

read_by :
    (n a : ℕ) (m : Bytes) (s : List ℕ)
    → Reading n a m s
    → ((t : List ℕ) → string_at n (a + 1) m ≡ some t → AllNonzero t × (length t < n))
    → AllNonzero s × (length s < suc n)
read_by n a m _ (at_end z) rest = (tt, omega arith)
read_by n a m _ (going_on t nz e) rest = let (all, short) = rest t e in ((nz, all), omega arith)

-- More room reads the same string.
pub string_at-more :
    (n room a : ℕ) (m : Bytes) (s : List ℕ)
    → n ≤ room
    → string_at n a m ≡ some s
    → string_at room a m ≡ some s
string_at-more zero room a m s l e = cc
string_at-more (suc n) zero a m s l e = absurd (omega arith)
string_at-more (suc n) (suc room) a m s l e =
    more_by n room a m s (string_at-Reading n a m s e)
      (λ t. string_at-more n room (a + 1) m t (omega arith))

pub string_at-read :
    (n a : ℕ) (m : Bytes) (s : List ℕ) → string_at n a m ≡ some s → AllNonzero s × (length s < n)
string_at-read zero a m s e = cc
string_at-read (suc n) a m s e =
    read_by n a m s (string_at-Reading n a m s e) (λ t. string_at-read n (a + 1) m t)
