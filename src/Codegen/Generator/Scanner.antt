-- ===== src/Codegen/Generator/Scanner.antt =====
-- codegen/generator/scanner.go. Nil and empty slices are the same list.
pub mod Simple
use go_cloud_des.Prelude.{
  ℕ, suc, ◌+◌, Bool, ◌||◌, ◌==◌, nat_eq, Option, none, some, [], ◌∷◌, if◌then◌else◌, take, drop,
}
use go_cloud_des.Codegen.Generator.Text.{Bytes, bytes_eq, index_byte}

pub record LineScanner : Type 0 where
  pub text : Bytes
  pub line : Bytes
  pub line_num : ℕ

unfoldable pub new_line_scanner : Bytes → LineScanner
new_line_scanner text = record { text = text; line = []; line_num = 0 }

-- `s.line[len(s.line)-1] == '\r'` and the cut behind it.
unfoldable pub cut_return : Bytes → Bytes
cut_return [] = []
cut_return (c ∷ []) = if c == b'\r' then [] else c ∷ []
cut_return (c ∷ d ∷ cs) = c ∷ cut_return (d ∷ cs)

-- The line before the place of the first newline, if there is one, and the text behind it.
unfoldable pub take_line : LineScanner → Bytes → Option ℕ → LineScanner
unfolding cut_return
take_line s text none = record { text = []; line = text; line_num = s.line_num + 1 }
take_line s text (some idx) = record {
  text = drop (suc idx) text;
  line = cut_return (take idx text);
  line_num = s.line_num + 1;
}

-- The scanner after Scan, of what it has left; `none` stands for Scan's false.
unfoldable pub scan_text : LineScanner → Bytes → Option LineScanner
unfolding take_line index_byte
scan_text s [] = none
scan_text s (c ∷ cs) = some (take_line s (c ∷ cs) (index_byte (c ∷ cs) b'\n'))

unfoldable pub scan : LineScanner → Option LineScanner
unfolding scan_text
scan s = scan_text s s.text

-- `isSpace` of emit_expr.go.
abbrev pub is_space : ℕ → Bool
is_space c = c == b' ' || c == b'\t' || c == b'\r' || c == b'\n'

unfoldable pub trim_left_spaces : Bytes → Bytes
trim_left_spaces [] = []
trim_left_spaces (c ∷ cs) = let rest = trim_left_spaces cs in if is_space c then rest else c ∷ cs

-- The bytes before the first blank, and those from it on.
unfoldable pub split_word : Bytes → Bytes × Bytes
split_word [] = ([], [])
split_word (c ∷ cs) =
    let (word, rest) = split_word cs in
    if c == b' ' || c == b'\t' then ([], c ∷ cs) else (c ∷ word, rest)

unfoldable pub line : LineScanner → Bytes
unfolding trim_left_spaces
line s = trim_left_spaces s.line
