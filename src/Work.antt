-- ===== src/Work.antt =====
-- core/consensus/application.go: Work, a 256-bit number of expected hashes kept as 32 big-endian
-- bytes, and its arithmetic on the four words that the code reads from them.
pub mod Value
pub mod Product
pub mod Target
use qday.Base.{ℕ, ◌+◌, ◌%◌, Bool, Option, none, some, ltb, ◌==◌, if◌then◌else◌}
use qday.Base.Options.{◌>>=◌}
use qday.Base.Words
use qday.Base.Words.{u64_mod}

-- The words at the offsets 0, 8, 16 and 24.
pub record Work : Type 0 where
  pub w0 : ℕ
  pub w1 : ℕ
  pub w2 : ℕ
  pub w3 : ℕ

abbrev pub zero_work : Work
zero_work = record { w0 = 0; w1 = 0; w2 = 0; w3 = 0 }

abbrev pub one_work : Work
one_work = record { w0 = 0; w1 = 0; w2 = 0; w3 = 1 }

-- bytes.Compare on the bytes of the words, as the test that the first is the smaller.
unfoldable pub less : Work → Work → Bool
less w v =
    if w.w0 == v.w0
    then (if w.w1 == v.w1
        then (if w.w2 == v.w2 then ltb w.w3 v.w3 else ltb w.w2 v.w2)
        else ltb w.w1 v.w1)
    else ltb w.w0 v.w0

unfoldable pub add : Work → Work → Option Work
add w v =
    let (s3, c3) = Words.add64 w.w3 v.w3 0 in
    let (s2, c2) = Words.add64 w.w2 v.w2 c3 in
    let (s1, c1) = Words.add64 w.w1 v.w1 c2 in
    let (s0, c0) = Words.add64 w.w0 v.w0 c1 in
    if ltb 0 c0 then none else some (record { w0 = s0; w1 = s1; w2 = s2; w3 = s3 })

unfoldable pub sub : Work → Work → Option Work
sub w v =
    let (s3, c3) = Words.sub64 w.w3 v.w3 0 in
    let (s2, c2) = Words.sub64 w.w2 v.w2 c3 in
    let (s1, c1) = Words.sub64 w.w1 v.w1 c2 in
    let (s0, c0) = Words.sub64 w.w0 v.w0 c1 in
    if ltb 0 c0 then none else some (record { w0 = s0; w1 = s1; w2 = s2; w3 = s3 })

-- One round of `mul64`: the word of the product and the carry into the next.
unfoldable pub mul_round : ℕ → ℕ → ℕ → ℕ × ℕ
mul_round wi v c =
    let (hi, prod) = Words.mul64 wi v in
    let (prod', cc) = Words.add64 prod c 0 in (prod', (hi + cc) % u64_mod)

unfoldable pub mul64 : Work → ℕ → Option Work
mul64 w v =
    let (p3, c3) = mul_round w.w3 v 0 in
    let (p2, c2) = mul_round w.w2 v c3 in
    let (p1, c1) = mul_round w.w1 v c2 in
    let (p0, c0) = mul_round w.w0 v c1 in
    if ltb 0 c0 then none else some (record { w0 = p0; w1 = p1; w2 = p2; w3 = p3 })

unfoldable pub div64 : Work → ℕ → Option Work
div64 w v =
    if v == 0
    then none
    else (Words.div64 0 w.w0 v >>= λ a. Words.div64 a.1 w.w1 v >>= λ b.
        Words.div64 b.1 w.w2 v >>= λ c.
        Words.div64 c.1 w.w3 v >>= λ d. some (record { w0 = a.0; w1 = b.0; w2 = c.0; w3 = d.0 }))

unfoldable pub min : Work → Work → Work
unfolding less
min w v = if less w v then w else v

unfoldable pub max : Work → Work → Work
unfolding less
max w v = if less v w then w else v
