-- ===== src/Commands/Lines.antt =====
-- How a line is cut into white space, the command and the rest.
use unrealsdk.Base.{
  ◌+◌, ◌<◌, ℕ, ◌≡◌, refl, Bool, true, false, ◌∷◌, [], ◌++◌, Wide, length, take, drop, arith, sym,
  ap, ◌∙◌, if◌then◌else◌, length-append, take-append-drop,
}
use unrealsdk.Commands.{count_while, command_word, command_end, non_space}

abbrev pub All : (ℕ → Bool) → Wide → Type 0
All test [] = Unit
All test (c ∷ cs) = (test c ≡ true) × All test cs

-- The text is empty, or starts with a character that fails the test.
abbrev pub StopsAt : (ℕ → Bool) → Wide → Type 0
StopsAt test [] = Unit
StopsAt test (c ∷ cs) = test c ≡ false

count_while_cut :
    (test : ℕ → Bool) (xs : Wide)
    → All test (take (count_while test xs) xs) × StopsAt test (drop (count_while test xs) xs)
unfolding count_while
count_while_cut test [] = (tt, tt)
count_while_cut test (x ∷ xs) = ground (arith, count_while_cut test xs)

length-take_count :
    (test : ℕ → Bool) (xs : Wide) → length (take (count_while test xs) xs) ≡ count_while test xs
unfolding count_while
length-take_count test [] = refl
length-take_count test (x ∷ xs) = ground (arith, length-take_count test xs)

-- Where the characters that pass a test end.
cut_at :
    (test : ℕ → Bool) (xs rest : Wide)
    → All test xs
    → StopsAt test rest
    → count_while test (xs ++ rest) ≡ length xs
unfolding count_while
cut_at test [] [] a s = refl
cut_at test [] (c ∷ rest) a s = ground (arith, s)
cut_at test (x ∷ xs) rest (here, a) s =
    let later = cut_at test xs rest a s in ground (arith, here, later)

drop-length : (xs rest : Wide) → drop (length xs) (xs ++ rest) ≡ rest
drop-length [] rest = refl
drop-length (x ∷ xs) rest = drop-length xs rest

take-length : (xs rest : Wide) → take (length xs) (xs ++ rest) ≡ xs
take-length [] rest = refl
take-length (x ∷ xs) rest = ap (◌∷◌ x) (take-length xs rest)

-- White space, a word that is not empty and has none, and a rest that is empty or starts with it.
unfoldable pub IsLine : (ℕ → Bool) → Wide → Wide → Wide → Type 0
IsLine iswspace spaces [] rest = ⊥
IsLine iswspace spaces (c ∷ word) rest =
    All iswspace spaces
    × All (λ c. if iswspace c then false else true) (c ∷ word)
    × StopsAt (λ c. if iswspace c then false else true) rest

module _ (iswspace : ℕ → Bool) where
  spaces_end :
      (spaces word rest : Wide)
      → IsLine iswspace spaces word rest
      → non_space iswspace (spaces ++ (word ++ rest)) ≡ length spaces
  unfolding IsLine
  spaces_end spaces [] rest l = absurd l
  spaces_end spaces (c ∷ word) rest (blank, (first, plain), stop) =
      cut_at iswspace spaces (c ∷ (word ++ rest)) blank (ground (arith, first))

  -- The command is that word, and its end the length of what stands up to there.
  pub command_word-IsLine :
      (spaces word rest : Wide)
      → IsLine iswspace spaces word rest
      → (command_word iswspace (spaces ++ (word ++ rest)) ≡ word)
        × (command_end iswspace (spaces ++ (word ++ rest)) ≡ length spaces + length word)
        × (non_space iswspace (spaces ++ (word ++ rest)) < length (spaces ++ (word ++ rest)))
  unfolding command_word command_end IsLine
  command_word-IsLine spaces [] rest l = absurd l
  command_word-IsLine spaces (c ∷ word) rest (blank, plain, stop) =
      let test : ℕ → Bool = λ c. if iswspace c then false else true in
      let line = spaces ++ ((c ∷ word) ++ rest) in
      let start = spaces_end spaces (c ∷ word) rest (blank, plain, stop) in
      let cut : drop (non_space iswspace line) line ≡ (c ∷ word) ++ rest =
        ap (λ n. drop n line) start ∙ drop-length spaces ((c ∷ word) ++ rest) in
      let found : command_word iswspace line ≡ c ∷ word =
        ap (λ r. take (count_while test r) r) cut
        ∙ ap (λ n. take n ((c ∷ word) ++ rest)) (cut_at test (c ∷ word) rest plain stop)
        ∙ take-length (c ∷ word) rest in
      (
        found,
        omega (arith, start, ap length found),
        omega (arith, start, length-append spaces ((c ∷ word) ++ rest)),
      )

  -- A line is white space, the command, and a rest that is empty or starts with white space; the
  -- command holds none, and `command_end` is the position behind it.
  pub line_parts :
      (line : Wide)
      → (spaces : Wide) × (rest : Wide) × (line ≡ spaces ++ (command_word iswspace line ++ rest))
        × All iswspace spaces
        × All (λ c. if iswspace c then false else true) (command_word iswspace line)
        × StopsAt (λ c. if iswspace c then false else true) rest
        × (command_end iswspace line ≡ length (spaces ++ command_word iswspace line))
  unfolding command_word command_end
  line_parts line =
      let n = non_space iswspace line in
      let word_test : ℕ → Bool = λ c. if iswspace c then false else true in
      let tail = drop n line in
      let m = count_while word_test tail in
      (
        take n line,
        drop m tail,
        sym (ap (λ t. take n line ++ t) (take-append-drop m tail) ∙ take-append-drop n line),
        (count_while_cut iswspace line).0,
        (count_while_cut word_test tail).0,
        (count_while_cut word_test tail).1,
        omega (arith, length-append (take n line) (take m tail), length-take_count iswspace line),
      )
