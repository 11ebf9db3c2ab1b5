-- ===== src/Codegen/Generator/Generate/Hash.antt =====
-- The model that GenerateWithHash of codegen/generator/generator.go builds has the hash it was given.
use go_cloud_des.Prelude.{
  ℕ, suc, ◌≡◌, ◌<◌, refl, ap, arith, true, nat_eq, some, List, [], ◌∷◌, ◌++◌, length, take, drop,
  All,
}
use go_cloud_des.Codegen.Generator.Text.Trim.{IsPlain, trim_space-plain}
use go_cloud_des.Codegen.Generator.Text.{Bytes, index_byte}
use go_cloud_des.Codegen.Generator.Scanner.{
  new_line_scanner, cut_return, take_line, scan_text, scan, trim_left_spaces, split_word,
}
use go_cloud_des.Codegen.Generator.Parsed.{
  ok, scan_no_empty, scan_lines, word, no_more_words, unless_blank, scanned, word_of, no_more,
}
use go_cloud_des.Codegen.Generator.Sections.{need_line}
use go_cloud_des.Codegen.Generator.Parser.{is_hex_digit, all_hex, is_hex, new_model, parse_hash}
use go_cloud_des.Codegen.Generator.Generate.{append_hash_line}

-- Bytes that end no line and no word.
hex-plain : (c : ℕ) → is_hex_digit c ≡ true → (32 < c) × (c < 128)
unfolding is_hex_digit
hex-plain c h = ground (arith, h)

index_byte-hex :
    (cs rest : Bytes) → all_hex cs ≡ true → index_byte (cs ++ b'\n' ∷ rest) b'\n' ≡ some (length cs)
unfolding index_byte all_hex
index_byte-hex [] rest h = refl
index_byte-hex (c ∷ cs) rest h =
    ground (arith, index_byte-hex cs rest (ground (arith, h)), hex-plain c (ground (arith, h)))

take-append {ℓ} : {A : Type ℓ} (xs ys : List A) → take (length xs) (xs ++ ys) ≡ xs
take-append [] ys = refl
take-append (x ∷ xs) ys = ap (◌∷◌ x) (take-append xs ys)

drop-append {ℓ} :
    {A : Type ℓ} (xs : List A) (y : A) (ys : List A) → drop (suc (length xs)) (xs ++ y ∷ ys) ≡ ys
drop-append [] y ys = refl
drop-append (x ∷ xs) y ys = drop-append xs y ys

cut_return-hex : (cs : Bytes) → all_hex cs ≡ true → cut_return cs ≡ cs
unfolding cut_return all_hex
cut_return-hex [] h = refl
cut_return-hex (c ∷ []) h = ground (arith, hex-plain c (ground (arith, h)))
cut_return-hex (c ∷ d ∷ cs) h = ap (◌∷◌ c) (cut_return-hex (d ∷ cs) (ground (arith, h)))

trim_left_spaces-hex :
    (c : ℕ) (cs : Bytes) → is_hex_digit c ≡ true → trim_left_spaces (c ∷ cs) ≡ c ∷ cs
unfolding trim_left_spaces
trim_left_spaces-hex c cs h = ground (arith, hex-plain c h)

split_word-hex : (cs : Bytes) → all_hex cs ≡ true → split_word cs ≡ (cs, [])
unfolding split_word all_hex
split_word-hex [] h = refl
split_word-hex (c ∷ cs) h =
    ground (arith, split_word-hex cs (ground (arith, h)), hex-plain c (ground (arith, h)))

all_hex-IsPlain : (cs : Bytes) → all_hex cs ≡ true → All IsPlain cs
unfolding all_hex
all_hex-IsPlain [] h = tt
all_hex-IsPlain (c ∷ cs) h =
    (hex-plain c (ground (arith, h)), all_hex-IsPlain cs (ground (arith, h)))

-- The first line of a text that begins with a hash.
scan-hash :
    (hash text : Bytes)
    → all_hex hash ≡ true
    → 0 < length hash
    → scan (new_line_scanner (append_hash_line hash text))
      ≡ some (record { text = text; line = hash; line_num = 1 })
unfolding scan scan_text take_line new_line_scanner append_hash_line
scan-hash [] text h lt = absurd (omega (arith, lt))
scan-hash (c ∷ cs) text h lt =
    rw
      (
        index_byte-hex (c ∷ cs) text h,
        take-append cs (b'\n' ∷ text),
        drop-append cs b'\n' text,
        cut_return-hex (c ∷ cs) h,
      )
      refl

need_line-hash :
    (hash text : Bytes)
    → all_hex hash ≡ true
    → 0 < length hash
    → need_line (new_line_scanner (append_hash_line hash text))
      ≡ ok tt (record { text = text; line = hash; line_num = 1 })
unfolding need_line scan_no_empty scan_lines scanned unless_blank
need_line-hash [] text h lt = absurd (omega (arith, lt))
need_line-hash (c ∷ cs) text h lt =
    let plain = all_hex-IsPlain (c ∷ cs) h in
    rw (scan-hash (c ∷ cs) text h lt, trim_space-plain c cs plain.0 plain.1) refl

word-hash :
    (hash text : Bytes)
    → all_hex hash ≡ true
    → 0 < length hash
    → word (record { text = text; line = hash; line_num = 1 })
      ≡ ok (some hash) (record { text = text; line = []; line_num = 1 })
unfolding word word_of all_hex
word-hash [] text h lt = absurd (omega (arith, lt))
word-hash (c ∷ cs) text h lt =
    rw (trim_left_spaces-hex c cs (ground (arith, h)), split_word-hex (c ∷ cs) h) refl

-- The hash line that GenerateWithHash puts before a text is read back by parseHash as the hash, of 64
-- hexadecimal digits, and leaves the text to the sections.
pub parse_hash-append_hash_line :
    (hash text : Bytes)
    → length hash ≡ 64
    → is_hex hash ≡ true
    → parse_hash new_model (new_line_scanner (append_hash_line hash text))
      ≡ ok (record new_model { hash = hash }) (record { text = text; line = []; line_num = 1 })
unfolding parse_hash is_hex no_more_words no_more word trim_left_spaces word_of
parse_hash-append_hash_line [] text size hex = absurd (omega (arith, size))
parse_hash-append_hash_line (c ∷ cs) text size hex =
    rw
      (
        need_line-hash (c ∷ cs) text hex (omega arith),
        word-hash (c ∷ cs) text hex (omega arith),
        size,
        hex,
      )
      refl
