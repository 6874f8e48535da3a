-- ===== src/Fs/Fat32/Listing/Text.antt =====
-- src/fs/fat32.cpp: what the buffered output puts on the screen, and the size of a listing.
use layla_os.Base.{
  ℕ, zero, suc, ◌+◌, ◌-◌, ◌%◌, ◌≤◌, ◌≡◌, refl, sym, ap, ◌∙◌, inl, inr, Bool-cases, List, [], ◌∷◌,
  ◌++◌, if◌then◌else◌, leb, ◌==◌, length, length-append, append_assoc, append-nil, drop, replicate,
  arith,
}
use layla_os.Net.Wire.{load8, load32}
use layla_os.Fs.Fat32.Listing.{
  Output, out_cap, output_flush, output_char, output_str, output_digits, digits_of, output_u32,
  output_entry, output_in, listed_name, slash_if, is_dir, is_hidden,
}

-- All that has been given to the output.
abbrev pub text : Output → List ℕ
text o = o.shown ++ o.out

pub text-output_char : (o : Output) (c : ℕ) → text (output_char o c) ≡ text o ++ (c ∷ [])
unfolding output_char output_flush
text-output_char o c = elim (Bool-cases (leb out_cap (length o.out))) [
  | inl full ↦ rw full refl
  | inr room ↦ rw room (sym (append_assoc o.shown o.out (c ∷ [])))
]

-- The buffer does not overflow.
pub length-output_char :
    (o : Output) (c : ℕ) → length o.out ≤ out_cap → length (output_char o c).out ≤ out_cap
unfolding output_char output_flush
length-output_char o c h = elim (Bool-cases (leb out_cap (length o.out))) [
  | inl full ↦ rw full (omega arith)
  | inr room ↦ rw room (ground (arith, length-append o.out (c ∷ [])))
]

pub text-output_str : (cs : List ℕ) (o : Output) → text (output_str o cs) ≡ text o ++ cs
unfolding output_str
text-output_str [] o = sym (append-nil (text o))
text-output_str (c ∷ cs) o =
    text-output_str cs (output_char o c)
    ∙ ap (λ (t : List ℕ). t ++ cs) (text-output_char o c)
    ∙ append_assoc (text o) (c ∷ []) cs

abbrev pub rev : List ℕ → List ℕ
rev [] = []
rev (c ∷ cs) = rev cs ++ (c ∷ [])

pub text-output_digits : (cs : List ℕ) (o : Output) → text (output_digits o cs) ≡ text o ++ rev cs
unfolding output_digits
text-output_digits [] o = sym (append-nil (text o))
text-output_digits (c ∷ cs) o =
    text-output_char (output_digits o cs) c
    ∙ ap (λ (t : List ℕ). t ++ (c ∷ [])) (text-output_digits cs o)
    ∙ append_assoc (text o) (rev cs) (c ∷ [])

-- The digits of a size.
unfoldable pub decimal : ℕ → List ℕ
decimal value = if value == 0 then b'0' ∷ [] else rev (digits_of 10 value)

pub text-output_u32 : (o : Output) (value : ℕ) → text (output_u32 o value) ≡ text o ++ decimal value
unfolding output_u32 decimal
text-output_u32 o value = elim (Bool-cases (value == 0)) [
  | inl e ↦ rw e (text-output_char o b'0')
  | inr e ↦ rw e (text-output_digits (digits_of 10 value) o)
]

-- The text of an entry: its name in a column of 13, its size or <DIR>, and a line break after
-- every second entry, two blanks after the others.
abbrev entry_name : List ℕ → List ℕ
entry_name e = listed_name e ++ slash_if (is_dir e)

abbrev entry_size : List ℕ → List ℕ
entry_size e =
    if is_dir e then b'<' ∷ (b'D' ∷ (b'I' ∷ (b'R' ∷ (b'>' ∷ [])))) else decimal (load32 e 28)

abbrev separator : ℕ → List ℕ
separator rendered = if (rendered + 1) % 2 == 0 then 10 ∷ [] else b' ' ∷ (b' ' ∷ [])

unfoldable pub entry_text : ℕ → List ℕ → List ℕ
entry_text rendered e =
    entry_name e
    ++ (replicate (13 - length (entry_name e)) b' ' ++ (entry_size e ++ separator rendered))

text-separator :
    (o : Output) (rendered : ℕ)
    → text (
        if (rendered + 1) % 2 == 0 then output_char o 10 else output_char (output_char o b' ') b' ')
      ≡ text o ++ separator rendered
text-separator o rendered = elim (Bool-cases ((rendered + 1) % 2 == 0)) [
  | inl e ↦ rw e (text-output_char o 10)
  | inr e ↦ rw e (
      text-output_char (output_char o b' ') b' '
      ∙ ap (λ (t : List ℕ). t ++ (b' ' ∷ [])) (text-output_char o b' ')
      ∙ append_assoc (text o) (b' ' ∷ []) (b' ' ∷ []))
]

text-size :
    (o : Output) (e : List ℕ)
    → text (
        if is_dir e
        then output_str o (b'<' ∷ (b'D' ∷ (b'I' ∷ (b'R' ∷ (b'>' ∷ [])))))
        else output_u32 o (load32 e 28))
      ≡ text o ++ entry_size e
text-size o e = elim (Bool-cases (is_dir e)) [
  | inl d ↦ rw d (text-output_str _ o)
  | inr d ↦ rw d (text-output_u32 o (load32 e 28))
]

text-output_entry :
    (o : Output) (rendered : ℕ) (e : List ℕ)
    → text (output_entry o rendered e) ≡ text o ++ entry_text rendered e
unfolding output_entry entry_text
text-output_entry o rendered e =
    let name = entry_name e in
    let pad = replicate (13 - length name) b' ' in
    let named = output_str o name in
    let padded = output_str named pad in
    text-separator _ rendered
    ∙ ap (λ (t : List ℕ). t ++ separator rendered)
        (text-size padded e
          ∙ ap (λ (t : List ℕ). t ++ entry_size e)
              (text-output_str pad named ∙ ap (λ (t : List ℕ). t ++ pad) (text-output_str name o)))
    ∙ append_assoc ((text o ++ name) ++ pad) (entry_size e) (separator rendered)
    ∙ append_assoc (text o ++ name) pad (entry_size e ++ separator rendered)
    ∙ append_assoc (text o) name (pad ++ (entry_size e ++ separator rendered))

-- The entries of a cluster, one after the other.
unfoldable pub entries_text : ℕ → ℕ → List ℕ → List ℕ
entries_text zero rendered entries = []
entries_text (suc n) rendered entries =
    if load8 entries 0 == 0x00
    then []
    else if is_hidden entries
    then entries_text n rendered (drop 32 entries)
    else entry_text rendered entries ++ entries_text n (rendered + 1) (drop 32 entries)

-- The output of ListDirectory for a cluster is the text of its visible entries up to the end of the
-- directory, in their order, however often the buffer is flushed in between.
pub text-output_in :
    (n : ℕ) (o : Output) (rendered : ℕ) (entries : List ℕ)
    → text (output_in n o rendered entries).0 ≡ text o ++ entries_text n rendered entries
unfolding output_in entries_text
text-output_in zero o rendered entries = sym (append-nil (text o))
text-output_in (suc n) o rendered entries = elim (Bool-cases (load8 entries 0 == 0x00)) [
  | inl e ↦ rw e (sym (append-nil (text o)))
  | inr e ↦ elim (Bool-cases (is_hidden entries)) [
    | inl hidden ↦ rw (e, hidden) (text-output_in n o rendered (drop 32 entries))
    | inr seen ↦
        rw (e, seen)
          (text-output_in n (output_entry o rendered entries) (rendered + 1) (drop 32 entries)
            ∙ ap (λ (t : List ℕ). t ++ entries_text n (rendered + 1) (drop 32 entries))
                (text-output_entry o rendered entries)
            ∙ append_assoc (text o) (entry_text rendered entries) _)
  ]
]
