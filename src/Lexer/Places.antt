-- ===== src/Lexer/Places.antt =====
-- The line and column of a lexer are those of its position.
use alkyl.Prelude.{
  ℕ, suc, zero, ◌+◌, ◌-◌, ◌≤◌, [], ◌∷◌, ◌++◌, ◌≡◌, refl, sym, ap, ◌∙◌, inl, inr, Bool, true, List,
  Option, Str, ok, length, take, drop, ◌==◌, if◌then◌else◌, Bool-cases, arith,
}
use alkyl.Lexer.Token.{Token, Floats, Message, Report, LexerSettings}
use alkyl.Lexer.State.{Lexer, ahead, report_if, move_to, move_over, catch_up, lexer_init}
use alkyl.Lexer.Next.{lexer_next}
use alkyl.Lexer.Behind.{IsBehind, length-IsBehind}
use alkyl.Lexer.Attempts.{Returns}
use alkyl.Lexer.Kept.{lexer_next-keeps}

-- The line breaks of a text, and the bytes behind the last of them.
unfoldable pub newlines : Str → ℕ
newlines [] = 0
newlines (c ∷ text) = if c == b'\n' then suc (newlines text) else newlines text

unfoldable pub last_line : Str → ℕ
unfolding newlines
last_line [] = 0
last_line (c ∷ text) =
    if newlines text == 0
    then (if c == b'\n' then length text else suc (length text))
    else last_line text

-- The column after `text` where it was `col` before.
abbrev column_after : Str → ℕ → ℕ
column_after text col = if newlines text == 0 then col + length text else 1 + last_line text

move_over_lem :
    (text : Str) (p : ℕ × ℕ)
    → ((move_over text p).0 ≡ p.0 + newlines text) × ((move_over text p).1 ≡ column_after text p.1)
unfolding move_over newlines last_line
move_over_lem [] p = (omega arith, omega arith)
move_over_lem (c ∷ text) p = elim (Bool-cases (c == b'\n')) [
  | inl e ↦
      let (lines, cols) = move_over_lem text (p.0 + 1, 1) in
      rw (e, move_over) (omega (arith, lines), ground (arith, cols))
  | inr e ↦
      let (lines, cols) = move_over_lem text (p.0, p.1 + 1) in
      rw (e, move_over) (lines, ground (arith, cols))
]

last_line-one : (text : Str) → newlines text == 0 ≡ true → last_line text ≡ length text
unfolding newlines last_line
last_line-one [] e = refl
last_line-one (c ∷ text) e = elim (Bool-cases (c == b'\n')) [
  | inl f ↦ absurd (ground (arith, rw f at e))
  | inr f ↦ let g = rw f at e in rw (g, f) refl
]

column_after-one : (text : Str) → column_after text 1 ≡ 1 + last_line text
column_after-one text = elim (Bool-cases (newlines text == 0)) [
  | inl e ↦ rw e (ap (λ n. 1 + n) (sym (last_line-one text e)))
  | inr e ↦ rw e
]

suc-add : (n k : ℕ) → suc n + k ≡ suc (n + k)
suc-add n k = omega arith

take_nil : {A : Type 0} (k : ℕ) → take {A = A} k [] ≡ []
take_nil zero = refl
take_nil (suc k) = refl

length-drop : {A : Type 0} (n : ℕ) (xs : List A) → length (drop n xs) ≡ length xs - n
length-drop zero xs = omega arith
length-drop (suc n) [] = omega arith
length-drop (suc n) (x ∷ xs) = omega (arith, length-drop n xs)

take-more : {A : Type 0} (n k : ℕ) (xs : List A) → take (n + k) xs ≡ take n xs ++ take k (drop n xs)
take-more zero k xs = ap (λ m. take m xs) (omega arith)
take-more (suc n) k [] = rw (suc-add n k, take_nil k)
take-more (suc n) k (x ∷ xs) = rw (suc-add n k) (ap (λ s. x ∷ s) (take-more n k xs))

move_over-append : (a b : Str) (p : ℕ × ℕ) → move_over (a ++ b) p ≡ move_over b (move_over a p)
unfolding move_over
move_over-append [] b p = refl
move_over-append (c ∷ a) b p = move_over-append a b _

module _ {F : Floats} where
  -- The position is in the source and is counted up to, from line 1 and column 1 on.
  pub record IsPlaced (l : Lexer F) : Type 0 where
    pub in_source : l.pos ≤ length l.src
    pub counted : l.last_calc_pos ≡ l.pos
    pub place : (l.line, l.col) ≡ move_over (take l.pos l.src) (1, 1)

  catch_up-IsPlaced :
      (l : Lexer F) (p : IsPlaced l) (rest : Str) (b : Bool) (m : Message)
      (h : IsBehind rest (ahead l))
      → IsPlaced (catch_up (report_if b m (move_to rest l)))
  unfolding catch_up
  catch_up-IsPlaced l p rest b m h =
      let next = length l.src - length rest in
      let step = next - l.pos in
      let forth : next ≡ l.pos + step =
        omega (arith, length-IsBehind rest (ahead l) h, length-drop l.pos l.src, p.in_source) in
      let passed : take next l.src ≡ take l.pos l.src ++ take step (drop l.pos l.src) =
        ap (λ n. take n l.src) forth ∙ take-more l.pos step l.src in
      record {
        in_source = omega arith;
        counted = refl;
        place =
            rw (p.counted, p.place, passed)
              (sym (move_over-append (take l.pos l.src) (take step (drop l.pos l.src)) (1, 1)));
      }

  -- What holds of a lexer of `src`: its place, and that its arrays are large enough.
  pub record IsLexing (src : Str) (l : Lexer F) : Type 0 where
    pub placed : IsPlaced l
    pub of_src : l.src ≡ src
    pub queue : length l.pending_tokens ≤ 16
    pub blocks : length l.indent_stack ≤ 127

  pub moved :
      (src : Str) (l : Lexer F) (h : IsLexing src l) (rest : Str) (b : Bool) (m : Message)
      (e : IsBehind rest (ahead l))
      → IsLexing src (catch_up (report_if b m (move_to rest l)))
  unfolding catch_up
  moved src l h rest b m e = record {
    placed = catch_up-IsPlaced l h.placed rest b m e;
    of_src = h.of_src;
    queue = h.queue;
    blocks = h.blocks;
  }

  pub queued :
      (src : Str) (l : Lexer F) (h : IsLexing src l) (ps : List (Token F)) (stack : List ℕ)
      (reports : List Report)
      → (length l.pending_tokens ≤ 16 → length ps ≤ 16)
      → (length l.indent_stack ≤ 127 → length stack ≤ 127)
      → IsLexing src (record l { pending_tokens = ps; indent_stack = stack; reports = reports })
  queued src l h ps stack reports queue blocks = record {
    placed = record {
      in_source = h.placed.in_source;
      counted = h.placed.counted;
      place = h.placed.place;
    };
    of_src = h.of_src;
    queue = queue h.queue;
    blocks = blocks h.blocks;
  }

  pub lexer_next-IsLexing :
      (src : Str) (l : Lexer F) (h : IsLexing src l)
      → Returns (λ r. IsLexing src r.1) (lexer_next l)
  lexer_next-IsLexing src =
      lexer_next-keeps (IsLexing src) (λ l h ps stack. queued src l h ps stack)
        (λ l h rest b m e. moved src l h rest b m e)

  -- `lexer_next` has been called any number of times.
  pub data Reaches (l : Lexer F) : Lexer F → Type 0 where
    reaches_start : Reaches l l
    reaches_next :
        {m n : Lexer F} {t : Token F} → Reaches l m → lexer_next m ≡ ok (t, n) → Reaches l n

  pub Reaches-IsLexing :
      (src : Str) (settings : Option LexerSettings) (l : Lexer F)
      → Reaches (lexer_init src settings) l
      → IsLexing src l
  unfolding lexer_init move_over
  Reaches-IsLexing src settings l reaches_start = record {
    placed = record { in_source = omega arith; counted = refl; place = refl };
    of_src = refl;
    queue = omega arith;
    blocks = omega arith;
  }
  Reaches-IsLexing src settings l (reaches_next {m} r e) =
      rw e at (lexer_next-IsLexing src m (Reaches-IsLexing src settings m r))

  -- After any calls of `lexer_next` that return, the position is in the source, and the line and
  -- the column, both from 1, are those of the line breaks before it.
  pub Reaches-line :
      (src : Str) (settings : Option LexerSettings) (l : Lexer F)
      → Reaches (lexer_init src settings) l
      → (l.pos ≤ length src)
        × (l.line ≡ 1 + newlines (take l.pos src))
        × (l.col ≡ 1 + last_line (take l.pos src))
  Reaches-line src settings l r =
      let h = Reaches-IsLexing src settings l r in
      let text = take l.pos l.src in
      let (lines, cols) = move_over_lem text (1, 1) in
      rw (← h.of_src) (
        h.placed.in_source,
        ap (λ q. q.0) h.placed.place ∙ lines,
        ap (λ q. q.1) h.placed.place ∙ cols ∙ column_after-one text,
      )
