-- ===== src/Samples/Scan.antt =====
-- golang_test/bufio-test/scan.go: `ScanByte`, which checks a scanner of bytes on texts. What the
-- scanner of package bufio finds in a text, its tokens and whether it fails, is a parameter.
use eth_research.Base.{
  ℕ, suc, ◌+◌, ◌≡◌, refl, sym, ap, ◌∙◌, List, [], ◌∷◌, ◌++◌, map, Bool, true, false, not, ◌||◌,
  none, some, ◌==◌, if◌then◌else◌, length, get_elem?, get_or, arith, Outcome, done, panic, ◌>>=◌,
}

-- What is printed: a token that is not the byte at its index, a wrong number of tokens, an error.
pub data Line : Type 0 where
  wrong_token : ℕ → ℕ → Line
  wrong_end : ℕ → ℕ → ℕ → Line
  scan_error : ℕ → Line

-- `len(b) != 1 || b[0] != test[i]`
abbrev is_wrong : List ℕ → ℕ → Bool
is_wrong b expected = not (length b == 1) || not (get_or b 0 0 == expected)

-- The inner loop from index `i` on: what it prints, and `i` after it. It reads `test[i]` only for a
-- token of one byte.
unfoldable pub scan_tokens : ℕ → List ℕ → ℕ → List (List ℕ) → Outcome (List Line × ℕ)
scan_tokens n test i [] = done ([], i)
scan_tokens n test i (b ∷ rest) = do
  wrong ←
      (if not (length b == 1)
        then done true
        else elim (get_elem? test i) [ none ↦ panic | some e ↦ done (is_wrong b e) ])
  (lines, last) ← scan_tokens n test (i + 1) rest
  done ((if wrong then wrong_token n i ∷ lines else lines), last)

module _ (scan : List ℕ → List (List ℕ) × Bool) where
  unfoldable pub scan_test : ℕ → List ℕ → Outcome (List Line)
  scan_test n test = do
    (lines, i) ← scan_tokens n test 0 (scan test).0
    done (
        lines
        ++ ((if i == length test then [] else wrong_end n (length test) i ∷ [])
            ++ (if (scan test).1 then scan_error n ∷ [] else [])))

  -- `ScanByte`, from test number `n` on.
  unfoldable pub scan_byte : ℕ → List (List ℕ) → Outcome (List Line)
  scan_byte n [] = done []
  scan_byte n (test ∷ rest) = do
    lines ← scan_test n test
    more ← scan_byte (suc n) rest
    done (lines ++ more)

abbrev pub singles : List ℕ → List (List ℕ)
singles test = map (λ b. b ∷ []) test

is_wrong-same : (b : ℕ) → is_wrong (b ∷ []) b ≡ false
is_wrong-same b = ground arith

scan_tokens-singles :
    (n : ℕ) (test : List ℕ) (i : ℕ) (rest : List ℕ)
    → ((j : ℕ) → get_elem? rest j ≡ get_elem? test (i + j))
    → i + length rest ≡ length test
    → scan_tokens n test i (singles rest) ≡ done ([], length test)
unfolding scan_tokens
scan_tokens-singles n test i [] left size =
    let all : i ≡ length test = omega (arith, size) in ap (λ (k : ℕ). done ([], k)) all
scan_tokens-singles n test i (b ∷ rest) left size =
    let at : get_elem? test i ≡ some b =
      ap (λ (k : ℕ). get_elem? test k) {x = i} {y = i + 0} (omega arith) ∙ sym (left 0) in
    let later =
      scan_tokens-singles n test (i + 1) rest
        (λ j.
          left (suc j)
          ∙ ap (λ (k : ℕ). get_elem? test k) {x = i + suc j} {y = i + 1 + j} (omega arith))
        (omega (arith, size)) in
    rw (at, later, is_wrong-same b) refl

scan_test-singles :
    (scan : List ℕ → List (List ℕ) × Bool) (n : ℕ) (test : List ℕ)
    → scan test ≡ (singles test, false)
    → scan_test scan n test ≡ done []
unfolding scan_test
scan_test-singles scan n test good =
    let tokens =
      scan_tokens-singles n test 0 test
        (λ j. ap (λ (k : ℕ). get_elem? test k) {x = j} {y = 0 + j} (omega arith)) (omega arith) in
    let same : (length test == length test) ≡ true = ground arith in
    rw (scan_test, good, tokens, same) refl

-- Where the scanner finds the bytes of every text, one by one, and does not fail, `ScanByte` prints
-- nothing and does not panic.
pub scan_byte_lem :
    (scan : List ℕ → List (List ℕ) × Bool)
    → ((test : List ℕ) → scan test ≡ (singles test, false))
    → (n : ℕ) (tests : List (List ℕ)) → scan_byte scan n tests ≡ done []
unfolding scan_byte
scan_byte_lem scan good n [] = refl
scan_byte_lem scan good n (test ∷ rest) =
    rw (scan_test-singles scan n test (good test), scan_byte_lem scan good (suc n) rest) refl
