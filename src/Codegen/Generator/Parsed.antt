-- ===== src/Codegen/Generator/Parsed.antt =====
-- How the parsers of codegen/generator/ run: on the scanner, with the errors of error.go. The text of a
-- message is left out.
pub mod Rules
use go_cloud_des.Prelude.{
  ℕ, zero, suc, ◌==◌, nat_eq, Bool, true, false, Option, none, some, List, [], ◌∷◌, if◌then◌else◌,
  length, String,
}
use go_cloud_des.Strings.{codes}
use go_cloud_des.Codegen.Generator.Text.{Bytes, bytes_eq, trim_space}
use go_cloud_des.Codegen.Generator.Scanner.{LineScanner, scan, trim_left_spaces, split_word}
use go_cloud_des.Codegen.Generator.Scanner

pub data Reason : Type 0 where
  unexpected_eof incorrect_hash incorrect_format invalid_identifier duplicate_name : Reason
  unknown_type unknown_block_type unknown_block_param unknown_blocking_policy : Reason
  unknown_reference invalid_section_count : Reason

-- `err` is a ParseErr with its line. `panic` is a panic of the runtime, and `unfinished` the end of the
-- fuel of a loop.
pub data Parsed {ℓ} (A : Type ℓ) : Type ℓ where
  ok : A → LineScanner → Parsed A
  err : ℕ → Reason → Parsed A
  panic unfinished : Parsed A

abbrev pub bind {ℓ κ} :
    {A : Type ℓ} {B : Type κ} → Parsed A → (A → LineScanner → Parsed B) → Parsed B
bind (ok a s) f = f a s
bind (err l why) f = err l why
bind panic f = panic
bind unfinished f = unfinished

abbrev pub Action {ℓ} : Type ℓ → Type ℓ
Action A = LineScanner → Parsed A

abbrev pub pure {ℓ} : {A : Type ℓ} → A → Action A
pure a s = ok a s

-- `parseErr(scanner.LineNum(), why, ...)`
abbrev pub fail {ℓ} : {A : Type ℓ} → Reason → Action A
fail why s = err s.line_num why

infixl 1 ◌>>=◌ ◌>>◌
abbrev pub ◌>>=◌ {ℓ κ} : {A : Type ℓ} {B : Type κ} → Action A → (A → Action B) → Action B
◌>>=◌ m f s = bind (m s) f

abbrev pub ◌>>◌ {ℓ} : {B : Type ℓ} → Action (Unit {0}) → Action B → Action B
m >> k = m >>= λ _. k

-- `if b { return nil, parseErr(...) }`
abbrev pub fail_if : Bool → Reason → Action (Unit {0})
fail_if b why s = if b then err s.line_num why else ok tt s

-- A round of the loop of ScanNoEmpty: true with a line that is not blank, or the next round.
unfoldable pub unless_blank : Action Bool → LineScanner → Bytes → Parsed Bool
unless_blank next s [] = next s
unless_blank next s (c ∷ cs) = ok true s

unfoldable pub scanned : Action Bool → LineScanner → Option LineScanner → Parsed Bool
unfolding unless_blank trim_space
scanned next s none = ok false (record s { line = [] })
scanned next s (some s') = unless_blank next s' (trim_space s'.line)

unfoldable pub scan_lines : ℕ → Action Bool
unfolding scanned scan
scan_lines zero s = unfinished
scan_lines (suc fuel) s = scanned (scan_lines fuel) s (scan s)

-- ScanNoEmpty: each line that is passed over takes a byte at least.
unfoldable pub scan_no_empty : Action Bool
unfolding scan_lines
scan_no_empty s = scan_lines (suc (length s.text)) s

-- Word, of what trimLeftSpaces leaves, and none for nil.
unfoldable pub word_of : LineScanner → Bytes → Parsed (Option Bytes)
unfolding split_word
word_of s [] = ok none (record s { line = [] })
word_of s (c ∷ cs) =
    let (found, rest) = split_word (c ∷ cs) in ok (some found) (record s { line = rest })

unfoldable pub word : Action (Option Bytes)
unfolding trim_left_spaces word_of
word s = word_of s (trim_left_spaces s.line)

-- A nil word is the empty text where it is only compared or printed.
abbrev pub or_empty : Option Bytes → Bytes
or_empty none = []
or_empty (some w) = w

unfoldable pub line : Action Bytes
unfolding Scanner.line
line s = ok (Scanner.line s) s

-- `if extra := scanner.Word(); extra != nil { return parseErr(...) }`
unfoldable pub no_more : Reason → Option Bytes → Action (Unit {0})
no_more why none = pure tt
no_more why (some extra) = fail why

unfoldable pub no_more_words : Reason → Action (Unit {0})
unfolding word no_more
no_more_words why = word >>= no_more why

-- `token := scanner.Word(); if token == nil { return parseErr(...) }`
needed : Reason → Option Bytes → Action Bytes
needed why none = fail why
needed why (some token) = pure token

unfoldable pub need_word : Reason → Action Bytes
unfolding word needed
need_word why = word >>= needed why

-- What a round of a loop does: it goes on with a new state, or returns.
pub data Round {ℓ κ} (S : Type ℓ) (A : Type κ) : Type (ℓ ⊔ κ) where
  again : S → Round S A
  return : A → Round S A

-- `for scanner.ScanNoEmpty() { param := scanner.Word(); ... }`, and the error behind the loop.
module _ {ℓ κ} {S : Type ℓ} {A : Type κ} where
  after_round : (S → Action A) → Round S A → Action A
  after_round next (again st) s = next st s
  after_round next (return a) s = ok a s

  one_round : (S → Bytes → Action (Round S A)) → (S → Action A) → S → Bool → Action A
  unfolding after_round word
  one_round body next st false = fail unexpected_eof
  one_round body next st true = do param ← word; r ← body st (or_empty param); after_round next r

  unfoldable pub rounds : (S → Bytes → Action (Round S A)) → ℕ → S → Action A
  unfolding scan_no_empty one_round
  rounds body zero st s = unfinished
  rounds body (suc fuel) st s = bind (scan_no_empty s) (one_round body (rounds body fuel) st)

  -- Each round takes a byte at least.
  unfoldable pub each_line : (S → Bytes → Action (Round S A)) → S → Action A
  unfolding rounds
  each_line body st s = rounds body (suc (length s.text)) st s

abbrev pub is_text : Bytes → String → Bool
is_text w t = w == codes t
