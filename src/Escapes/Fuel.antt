-- ===== src/Escapes/Fuel.antt =====
-- The escape decoder on any text, one that is no UTF-8 included: its loop has enough fuel.
use crunch_lang.Prelude.{
  Text, [], ◌∷◌, ◌++◌, ℕ, zero, suc, ◌+◌, ◌*◌, ◌^◌, ◌≤◌, ◌<◌, Bool, true, false, Option, none, some,
  arith, if◌then◌else◌, length, ltb, ◌==◌, ◌||◌,
}
use crunch_lang.Escapes.{
  Outcome, ok, err, panic, Chars, chars, Stream, bind, ◌>>=◌, ◌>>◌, EscapeError, invalid_escape_seq,
  pop, next, brace, accept, number, checked, from_u32, hex_digit, octal_digit, binary_digit, u8_mod,
  u32_mod, scalar_or_error, scalar_or_panic, byte, unicode_16, unicode_32, octal, binary,
  numeric_escape, rune_escape, string_escape, unescape_char, unescape_loop, unescape_string,
  rune_char, unescape_rune,
}

-- A call ended, with at most `n` characters left if it gave a value.
pub data Stops {A : Type 0} (n : ℕ) : Outcome (A × Chars) → Type 0 where
  stopped : {a : A} {s : Chars} → length s.rest ≤ n → Stops n (ok (a, s))
  raised : {e : EscapeError} {lo hi : ℕ} → Stops n (err e lo hi)
  crashed : Stops n panic

-- A function that ends, and reads forward only.
abbrev Forward : {A : Type 0} → Stream A → Type 0
Forward f = (n : ℕ) (s : Chars) → length s.rest ≤ n → Stops n (f s)

module _ {A B : Type 0} where
  Stops-bind :
      {n : ℕ} {f : A → Stream B} {r : Outcome (A × Chars)}
      → Stops n r
      → ((a : A) (s : Chars) → length s.rest ≤ n → Stops n (f a s))
      → Stops n (bind r λ (a, s). f a s)
  Stops-bind (stopped l) k = k _ _ l
  Stops-bind raised k = raised
  Stops-bind crashed k = crashed

  Forward-bind :
      {f : Stream A} {g : A → Stream B}
      → Forward f
      → ((a : A) → Forward (g a))
      → Forward (λ s. bind (f s) λ (a, s'). g a s')
  Forward-bind h k n s l = Stops-bind (h n s l) λ a. k a n

module _ {A : Type 0} where
  Stops-if :
      (b : Bool) {n : ℕ} {r r' : Outcome (A × Chars)}
      → Stops n r
      → Stops n r'
      → Stops n (if b then r else r')
  Stops-if true h k = h
  Stops-if false h k = k

  Forward-if :
      (b : Bool) {f g : Stream A} → Forward f → Forward g → Forward (λ s. (if b then f else g) s)
  Forward-if true h k = h
  Forward-if false h k = k

  Forward-pure : (a : A) → Forward (λ s. ok (a, s))
  Forward-pure a n s l = stopped l

pop-Stops : (r : Text) (i n : ℕ) → length r ≤ n → Stops n (pop r i)
unfolding pop
pop-Stops [] i n l = raised
pop-Stops (c ∷ r) i n l = stopped (omega arith)

next-Forward : Forward next
unfolding next
next-Forward n s l = pop-Stops s.rest s.index n l

brace-Forward : (b : ℕ) → Forward (brace b)
unfolding brace
brace-Forward b =
    Forward-bind next-Forward λ c. Forward-if (c == b) (Forward-pure tt) λ n s l. raised

checked-Forward : (m n : ℕ) → Forward (checked m n)
checked-Forward m n = Forward-if (ltb n m) (Forward-pure n) λ k s l. crashed

accept-Forward : (base : ℕ) (o : Option ℕ) → Forward (accept base o)
accept-Forward base none n s l = raised
accept-Forward base (some d) n s l = stopped l

scalar_or_error-Forward : (letter start k : ℕ) → Forward (scalar_or_error letter start k)
scalar_or_error-Forward letter start k n s l = at_scalar (from_u32 k)
  where
    at_scalar :
        (o : Option ℕ)
        → Stops n
            (elim o [ some r ↦ ok (r, s) | none ↦ err (invalid_escape_seq letter k) start s.index ])
    at_scalar none = raised
    at_scalar (some r) = stopped l

scalar_or_panic-Forward : (k : ℕ) → Forward (scalar_or_panic k)
scalar_or_panic-Forward k n s l = at_scalar (from_u32 k)
  where
    at_scalar : (o : Option ℕ) → Stops n (elim o [ some r ↦ ok (r, s) | none ↦ panic ])
    at_scalar none = crashed
    at_scalar (some r) = stopped l

number-Forward :
    (m base : ℕ) (digit : ℕ → Option ℕ) (i acc : ℕ) → Forward (number m base digit i acc)
unfolding number
number-Forward m base digit zero acc = Forward-pure acc
number-Forward m base digit (suc i) acc = Forward-bind next-Forward λ c.
    Forward-bind (accept-Forward base (digit c)) λ d.
      Forward-bind (checked-Forward m (base ^ i)) λ q.
        Forward-bind (checked-Forward m (d * q))
          λ t. Forward-bind (checked-Forward m (acc + t)) λ acc'. number-Forward m base digit i acc'

-- The shape that the numeric escapes share.
braced-Forward :
    (m base : ℕ) (digit : ℕ → Option ℕ) (count : ℕ) {last : ℕ → Stream ℕ}
    → ((k : ℕ) → Forward (last k))
    → Forward (brace b'{' >> (number m base digit count 0 >>= λ n. brace b'}' >> last n))
braced-Forward m base digit count h = Forward-bind (brace-Forward b'{') λ _.
    Forward-bind (number-Forward m base digit count 0)
      λ n. Forward-bind (brace-Forward b'}') λ _. h n

numeric_escape-Forward : (c : ℕ) → Forward (numeric_escape c)
unfolding numeric_escape byte unicode_16 unicode_32 octal binary
numeric_escape-Forward c n s l =
    Stops-if (c == b'x') (braced-Forward u8_mod 16 hex_digit 2 scalar_or_panic-Forward n s l) (
      Stops-if (c == b'u')
        (braced-Forward u32_mod 16 hex_digit 4 (scalar_or_error-Forward b'u' s.index) n s l)
        (Stops-if (c == b'U')
          (braced-Forward u32_mod 16 hex_digit 8 (scalar_or_error-Forward b'U' s.index) n s l)
          (Stops-if (c == b'o')
            (braced-Forward u32_mod 8 octal_digit 3 (scalar_or_error-Forward b'o' s.index) n s l)
            (Stops-if (c == b'b')
              (braced-Forward u8_mod 2 binary_digit 8 scalar_or_panic-Forward n s l) raised))))

rune_escape-Forward : (c : ℕ) → Forward (rune_escape c)
unfolding rune_escape
rune_escape-Forward c n s l = Stops-if (c == 0x5c || (c == b'"' || c == 0x27)) (stopped l) (
    Stops-if (c == b'n') (stopped l) (
      Stops-if (c == b'r') (stopped l)
        (Stops-if (c == b't') (stopped l) (numeric_escape-Forward c n s l))))

string_escape-Forward : (c : ℕ) → Forward (string_escape c)
unfolding string_escape
string_escape-Forward c n s l = Stops-if (c == b'0') (stopped l) (rune_escape-Forward c n s l)

Stops-weaken : {A : Type 0} {m n : ℕ} {r : Outcome (A × Chars)} → Stops m r → m ≤ n → Stops n r
Stops-weaken (stopped l) h = stopped (omega arith)
Stops-weaken raised h = raised
Stops-weaken crashed h = crashed

-- The rounds that follow end on fewer than `n` characters.
abbrev Continues : ℕ → (Text → Stream Text) → Type 0
Continues n again =
    (out : Text) (m : ℕ) (s : Chars) → length s.rest ≤ m → m < n → Stops m (again out s)

-- A round reads a character.
unescape_char-Stops :
    (again : Text → Stream Text) (out r : Text) (i n : ℕ)
    → Continues n again
    → length r ≤ n
    → Stops n (unescape_char again out r i)
unfolding unescape_char
unescape_char-Stops again out [] i n k l = stopped (omega arith)
unescape_char-Stops again out (c ∷ r) i n k l =
    let s = chars r (i + 1) in
    let m = length r in
    Stops-if (c == 0x5c)
      (Stops-weaken
        (Stops-bind (next-Forward m s (omega arith)) λ e s₁ l₁.
          Stops-bind (string_escape-Forward e m s₁ l₁)
            λ v s₂ l₂. k (out ++ v ∷ []) m s₂ l₂ (omega arith))
        (omega arith))
      (Stops-weaken (k (out ++ c ∷ []) m s (omega arith) (omega arith)) (omega arith))

unescape_loop-Stops : (fuel : ℕ) → Continues fuel (unescape_loop fuel)
unfolding unescape_loop
unescape_loop-Stops zero out n s l k = absurd (omega arith)
unescape_loop-Stops (suc fuel) out n s l k =
    unescape_char-Stops (unescape_loop fuel) out s.rest s.index n
      (λ out' m s' l' k'. unescape_loop-Stops fuel out' m s' l' (omega arith)) l

-- What `unescape_string` and `unescape_rune` give for any text: not an end of fuel.
pub data Fueled {A : Type 0} : Outcome A → Type 0 where
  gave : {a : A} → Fueled (ok a)
  refused : {e : EscapeError} {lo hi : ℕ} → Fueled (err e lo hi)
  overflowed : Fueled panic

Fueled-value :
    {A : Type 0} {n : ℕ} {r : Outcome (A × Chars)} → Stops n r → Fueled (bind r λ (a, _). ok a)
Fueled-value (stopped l) = gave
Fueled-value raised = refused
Fueled-value crashed = overflowed

pub unescape_string-Fueled : (t : Text) → Fueled (unescape_string t)
unfolding unescape_string
unescape_string-Fueled t =
    Fueled-value
      (unescape_loop-Stops (length t + 1) [] (length t) (chars t 0) (omega arith) (omega arith))

pub unescape_rune-Fueled : (t : Text) → Fueled (unescape_rune t)
unfolding unescape_rune rune_char
unescape_rune-Fueled t =
    let n = length t in
    Fueled-value (
      Stops-bind (next-Forward n (chars t 0) (omega arith)) λ c s l.
        Stops-if (c == 0x5c)
          (Stops-bind (next-Forward n s l) λ e s₁ l₁. rune_escape-Forward e n s₁ l₁) (stopped l))
