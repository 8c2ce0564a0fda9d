-- ===== src/Asset/Unique.antt =====
-- What the textual keys of PDU definitions distinguish (hako_pdu_key and hako_add_pdu_io_unique of
-- sources/assets/callback/src/hako_asset_impl.cpp).
use hakoniwa_core_pro.Base.{
  Name, ℕ, ◌≡◌, refl, ap, sym, ◌∙◌, arith, Bool, true, false, ◌&&◌, ◌||◌, List, [], ◌∷◌, ◌++◌,
  if◌then◌else◌, name_eq, name_eq_self, name_eq_sound, to_string, to_string-eq, has, has-to_string,
  int_eq, int_eq_self, int_eq_sound, Bool-cases, inl, inr, ℤ,
}
use mathlib.Core.Bool.{true≢false}
use mathlib.Core.List.{head-eq_of_cons-eq, tail-eq_of_cons-eq, append_assoc}
use hakoniwa_core_pro.Asset.{
  PduIoEntry, RobotCompact, hako_pdu_key, seen_key, hako_add_pdu_io_unique, add_entries, bar,
}

has-++ : (c : ℕ) (xs ys : Name) → has c (xs ++ c ∷ ys) ≡ true
unfolding has
has-++ c [] ys = ground arith
has-++ c (x ∷ xs) ys = ground (arith, has-++ c xs ys)

-- The last bar is found from the end.
split_last :
    (c : ℕ) (xs ys s t : Name)
    → has c s ≡ false
    → has c t ≡ false
    → xs ++ c ∷ s ≡ ys ++ c ∷ t
    → (xs ≡ ys) × (s ≡ t)
split_last c [] [] s t hs ht e = (refl, tail-eq_of_cons-eq e)
split_last c [] (y ∷ ys) s t hs ht e =
    absurd (true≢false (sym (has-++ c ys t) ∙ ap (has c) (sym (tail-eq_of_cons-eq e)) ∙ hs))
split_last c (x ∷ xs) [] s t hs ht e =
    absurd (true≢false (sym (has-++ c xs s) ∙ ap (has c) (tail-eq_of_cons-eq e) ∙ ht))
split_last c (x ∷ xs) (y ∷ ys) s t hs ht e =
    let (front, back) = split_last c xs ys s t hs ht (tail-eq_of_cons-eq e) in
    (cc (head-eq_of_cons-eq e, front), back)

-- What a key says about an entry.
pub record SameChannel (a b : PduIoEntry) : Type 0 where
  pub name : a.name ≡ b.name
  pub channel_id : a.io.channel_id ≡ b.io.channel_id
  pub pdu_size : a.io.pdu_size ≡ b.io.pdu_size

split_key :
    (xs ys s t : Name)
    → has b'|' s ≡ false
    → has b'|' t ≡ false
    → xs ++ bar ++ s ≡ ys ++ bar ++ t
    → (xs ≡ ys) × (s ≡ t)
split_key xs ys s t hs ht e =
    split_last b'|' xs ys s t hs ht (sym (append_assoc xs bar s) ∙ e ∙ append_assoc ys bar t)

no_bar : (i : ℤ) → has b'|' (to_string i) ≡ false
no_bar i = has-to_string b'|' i (omega arith)

key_eq : (a b : PduIoEntry) → hako_pdu_key a ≡ hako_pdu_key b → SameChannel a b
unfolding hako_pdu_key
key_eq a b e =
    let (front, size) = split_key _ _ _ _ (no_bar a.io.pdu_size) (no_bar b.io.pdu_size) e in
    let (name, channel) =
      split_key _ _ _ _ (no_bar a.io.channel_id) (no_bar b.io.channel_id) front in
    record { name = name; channel_id = to_string-eq _ _ channel; pdu_size = to_string-eq _ _ size }

-- The same comparison on the fields.
abbrev pub same : PduIoEntry → PduIoEntry → Bool
same a b =
    name_eq a.name b.name
    && (int_eq a.io.channel_id b.io.channel_id && int_eq a.io.pdu_size b.io.pdu_size)

same_key : (a b : PduIoEntry) → SameChannel a b → hako_pdu_key a ≡ hako_pdu_key b
unfolding hako_pdu_key
same_key a b h = rw (h.name, h.channel_id, h.pdu_size) refl

same-SameChannel : (a b : PduIoEntry) → same a b ≡ true → SameChannel a b
same-SameChannel a b h = record {
  name = name_eq_sound _ _ (ground (arith, h));
  channel_id = int_eq_sound _ _ (ground (arith, h));
  pdu_size = int_eq_sound _ _ (ground (arith, h));
}

SameChannel-same : (a b : PduIoEntry) → SameChannel a b → same a b ≡ true
SameChannel-same a b h =
    rw (h.name, h.channel_id, h.pdu_size)
      (ground (arith, name_eq_self b.name, int_eq_self b.io.channel_id, int_eq_self b.io.pdu_size))

name_eq-key : (a b : PduIoEntry) → name_eq (hako_pdu_key a) (hako_pdu_key b) ≡ same a b
name_eq-key a b = elim (Bool-cases (same a b)) [
  | inl alike ↦
      rw (alike, same_key a b (same-SameChannel a b alike)) (name_eq_self (hako_pdu_key b))
  | inr differ ↦ elim (Bool-cases (name_eq (hako_pdu_key a) (hako_pdu_key b))) [
    | inl eq ↦
        absurd
          (true≢false (sym (SameChannel-same a b (key_eq a b (name_eq_sound _ _ eq))) ∙ differ))
    | inr ne ↦ rw (ne, differ) refl
  ]
]

-- The reference: an entry is kept unless one with the same fields is kept already.
unfoldable pub known : PduIoEntry → List PduIoEntry → Bool
known e [] = false
known e (k ∷ kept) = same e k || known e kept

unfoldable pub first_of_each : List PduIoEntry → List PduIoEntry → List PduIoEntry
unfolding known
first_of_each [] kept = kept
first_of_each (e ∷ es) kept = first_of_each es (if known e kept then kept else kept ++ e ∷ [])

known-++ :
    (e x : PduIoEntry) (kept : List PduIoEntry)
    → known e (kept ++ x ∷ []) ≡ (same e x || known e kept)
unfolding known
known-++ e x [] = refl
known-++ e x (k ∷ kept) = ground (arith, known-++ e x kept)

-- The set of keys knows what the robot has.
Covers : List Name → List PduIoEntry → Type 0
Covers seen kept = (e : PduIoEntry) → seen_key (hako_pdu_key e) seen ≡ known e kept

add-Covers :
    (x : PduIoEntry) (seen : List Name) (kept : List PduIoEntry)
    → Covers seen kept
    → Covers (hako_pdu_key x ∷ seen) (kept ++ x ∷ [])
unfolding Covers seen_key
add-Covers x seen kept c e = rw (name_eq-key e x, c e, known-++ e x kept) refl

hako_add_pdu_io_unique-seen :
    (e : PduIoEntry) (robot : RobotCompact) (seen : List Name)
    → seen_key (hako_pdu_key e) seen ≡ true
    → hako_add_pdu_io_unique e (robot, seen) ≡ (robot, seen)
unfolding hako_add_pdu_io_unique
hako_add_pdu_io_unique-seen e robot seen h = rw h refl

hako_add_pdu_io_unique-new :
    (e : PduIoEntry) (robot : RobotCompact) (seen : List Name)
    → seen_key (hako_pdu_key e) seen ≡ false
    → hako_add_pdu_io_unique e (robot, seen)
      ≡ (record robot { pdus = robot.pdus ++ e ∷ [] }, hako_pdu_key e ∷ seen)
unfolding hako_add_pdu_io_unique
hako_add_pdu_io_unique-new e robot seen h = rw h refl

add_entries_from :
    (entries : List PduIoEntry) (robot : RobotCompact) (seen : List Name)
    → Covers seen robot.pdus
    → (add_entries entries (robot, seen)).0.pdus ≡ first_of_each entries robot.pdus
unfolding add_entries first_of_each Covers
add_entries_from [] robot seen c = refl
add_entries_from (e ∷ es) robot seen c = elim (Bool-cases (known e robot.pdus)) [
  | inl here ↦
      ap (λ s. (add_entries es s).0.pdus) (hako_add_pdu_io_unique-seen e robot seen (c e ∙ here))
      ∙ rw here (add_entries_from es robot seen c)
  | inr new ↦
      ap (λ s. (add_entries es s).0.pdus) (hako_add_pdu_io_unique-new e robot seen (c e ∙ new))
      ∙ rw new (
          add_entries_from es (record robot { pdus = robot.pdus ++ e ∷ [] }) (hako_pdu_key e ∷ seen)
            (add-Covers e seen robot.pdus c))
]

-- A robot that starts without PDUs gets, from a list of entries, the first of each name, channel id and
-- size, in the order of the list: to compare the textual keys is to compare those three fields, also where names contain the separator.
pub add_entries-first_of_each :
    (entries : List PduIoEntry) (name : Name)
    → (add_entries entries (record { name = name; pdus = [] }, [])).0.pdus
      ≡ first_of_each entries []
unfolding Covers seen_key known
add_entries-first_of_each entries name = add_entries_from entries _ [] (λ e. refl)
