-- ===== src/Tools/Read/Told.antt =====
-- What the output of ohmytools/readstore.cpp tells of a log.
use oh_my_db.Prelude.{
  ℕ, suc, ◌≡◌, ◌<◌, refl, sym, ap, ◌∙◌, ℤ, pos, Bool, true, false, List, [], ◌∷◌, ◌++◌, arith,
  AllBut, to_string, to_string-AllBut, to_string-inj, IsInt, codes, Option, ◌==◌, append_assoc, map,
}
use oh_my_db.Consensus.{
  Text, OpKind, get, put, remove_server, add_server, unknown, Operation, LogEntry,
}
use oh_my_db.Consensus.Print.{bool_text, has_value, kind_str, operation_str, log_entry_str}
use oh_my_db.Persist.Vector.{Layout, setup}
use oh_my_db.Tools.Read.{print_entries, read_store}

-- Text up to a delimiter is told apart from what follows.
cut :
    (d : ℕ) (s t x y : Text) → AllBut d s → AllBut d t → s ++ d ∷ x ≡ t ++ d ∷ y → (s ≡ t) × (x ≡ y)
cut d [] [] x y hs ht e = (refl, cc e)
cut d [] (c ∷ t) x y hs ht e = let same : d ≡ c = cc e in absurd (ground (arith, ht.0))
cut d (c ∷ s) [] x y hs ht e = let same : c ≡ d = cc e in absurd (ground (arith, hs.0))
cut d (c ∷ s) (k ∷ t) x y hs ht e =
    let head : c ≡ k = cc e in
    let tail : s ++ d ∷ x ≡ t ++ d ∷ y = cc e in
    let (same, rest) = cut d s t x y hs.1 ht.1 tail in (cc (head, same), rest)

number_cut :
    (d : ℕ) (a b : ℤ) (x y : Text)
    → d < 45
    → IsInt a
    → IsInt b
    → to_string a ++ d ∷ x ≡ to_string b ++ d ∷ y
    → (a ≡ b) × (x ≡ y)
number_cut d a b x y h ha hb e =
    let (same, rest) =
      cut d (to_string a) (to_string b) x y (to_string-AllBut d a h) (to_string-AllBut d b h) e in
    (to_string-inj a b ha hb same, rest)

-- The same, where the delimiter and what follows it are printed together with the number.
number_cut_in :
    (d : ℕ) (a b : ℤ) (u v x y : Text)
    → d < 45
    → IsInt a
    → IsInt b
    → (to_string a ++ d ∷ u) ++ x ≡ (to_string b ++ d ∷ v) ++ y
    → (a ≡ b) × (u ++ x ≡ v ++ y)
number_cut_in d a b u v x y h ha hb e =
    number_cut d a b (u ++ x) (v ++ y) h ha hb
      (sym (append_assoc (to_string a) (d ∷ u) x) ∙ e ∙ append_assoc (to_string b) (d ∷ v) y)

differ : (c d : ℕ) (s t : Text) → (c == d) ≡ false → ◌≡◌ {A = Text} (c ∷ s) (d ∷ t) → ⊥
differ c d s t ne e = let same : c ≡ d = cc e in ground (arith, ne)

-- The operations of clients, whose arguments are 32-bit integers.
abbrev pub IsClient : OpKind → Type 0
IsClient (get key) = IsInt key
IsClient (put key val) = IsInt key × IsInt val
IsClient (add_server _) = ⊥
IsClient (remove_server _) = ⊥
IsClient (unknown _ _) = ⊥

abbrev pub IsPrinted : LogEntry → Type 0
IsPrinted e = IsInt e.term × IsClient e.op.kind

abbrev pub AllPrinted : List LogEntry → Type 0
AllPrinted [] = Unit
AllPrinted (e ∷ es) = IsPrinted e × AllPrinted es

kind_cut :
    (a b : OpKind) (x y : Text)
    → IsClient a
    → IsClient b
    → kind_str a ++ x ≡ kind_str b ++ y
    → (a ≡ b) × (x ≡ y)
unfolding kind_str
kind_cut (get k) (get j) x y ha hb e =
    let inner : (to_string k ++ codes ") ") ++ x ≡ (to_string j ++ codes ") ") ++ y = cc e in
    let (same, rest) = number_cut_in 41 k j (codes " ") (codes " ") x y (omega arith) ha hb inner in
    (ap get same, cc rest)
kind_cut (get k) (put j v) x y ha hb e = absurd (differ 71 80 _ _ refl e)
kind_cut (put k v) (get j) x y ha hb e = absurd (differ 80 71 _ _ refl e)
kind_cut (put k v) (put j w) x y ha hb e =
    let inner : (to_string k ++ (codes ", " ++ (to_string v ++ codes ") "))) ++ x
        ≡ (to_string j ++ (codes ", " ++ (to_string w ++ codes ") "))) ++ y =
      cc e in
    let (same, rest) = number_cut_in 44 k j _ _ x y (omega arith) ha.0 hb.0 inner in
    let inner' : (to_string v ++ codes ") ") ++ x ≡ (to_string w ++ codes ") ") ++ y = cc rest in
    let (same', rest') =
      number_cut_in 41 v w (codes " ") (codes " ") x y (omega arith) ha.1 hb.1 inner' in
    (cc (same, same'), cc rest')
kind_cut (get k) (add_server info) x y ha hb e = elim hb [ ]
kind_cut (get k) (remove_server server_id) x y ha hb e = elim hb [ ]
kind_cut (get k) (unknown kind arg) x y ha hb e = elim hb [ ]
kind_cut (put k v) (add_server info) x y ha hb e = elim hb [ ]
kind_cut (put k v) (remove_server server_id) x y ha hb e = elim hb [ ]
kind_cut (put k v) (unknown kind arg) x y ha hb e = elim hb [ ]
kind_cut (add_server info) b x y ha hb e = elim ha [ ]
kind_cut (remove_server server_id) b x y ha hb e = elim ha [ ]
kind_cut (unknown kind arg) b x y ha hb e = elim ha [ ]

bool_cut : (a b : Bool) (x y : Text) → bool_text a ++ x ≡ bool_text b ++ y → (a ≡ b) × (x ≡ y)
unfolding bool_text
bool_cut true true x y e = (refl, cc e)
bool_cut true false x y e = absurd (differ 49 48 _ _ refl e)
bool_cut false true x y e = absurd (differ 48 49 _ _ refl e)
bool_cut false false x y e = (refl, cc e)

operation_cut :
    (a b : Operation) (x y : Text)
    → IsClient a.kind
    → IsClient b.kind
    → operation_str a ++ x ≡ operation_str b ++ y
    → (a.kind ≡ b.kind) × (has_value a.promise_handle ≡ has_value b.promise_handle) × (x ≡ y)
unfolding operation_str
operation_cut a b x y ha hb e =
    let rest : Operation → Text = λ op. bool_text (has_value op.promise_handle) ++ codes " ]" in
    let inner : (kind_str a.kind ++ (codes "HasPromise=" ++ rest a)) ++ x
        ≡ (kind_str b.kind ++ (codes "HasPromise=" ++ rest b)) ++ y =
      cc e in
    let (kinds, after) =
      kind_cut a.kind b.kind ((codes "HasPromise=" ++ rest a) ++ x)
        ((codes "HasPromise=" ++ rest b) ++ y) ha hb
        (sym (append_assoc (kind_str a.kind) _ x) ∙ inner ∙ append_assoc (kind_str b.kind) _ y) in
    let flag : rest a ++ x ≡ rest b ++ y = cc after in
    let (flags, tail) =
      bool_cut (has_value a.promise_handle) (has_value b.promise_handle) (codes " ]" ++ x)
        (codes " ]" ++ y)
        (sym (append_assoc (bool_text (has_value a.promise_handle)) _ x)
          ∙ flag
          ∙ append_assoc (bool_text (has_value b.promise_handle)) _ y) in
    (kinds, flags, cc tail)

-- What the text of an entry shows: the promise itself is not printed.
pub record Shown : Type 0 where
  pub term : ℤ
  pub kind : OpKind
  pub has_promise : Bool

abbrev pub shown : LogEntry → Shown
shown e = record { term = e.term; kind = e.op.kind; has_promise = has_value e.op.promise_handle }

entry_cut :
    (a b : LogEntry) (x y : Text)
    → IsPrinted a
    → IsPrinted b
    → log_entry_str a ++ x ≡ log_entry_str b ++ y
    → (shown a ≡ shown b) × (x ≡ y)
unfolding log_entry_str
entry_cut a b x y ha hb e =
    let inner : (to_string a.term ++ (codes " Op=" ++ (operation_str a.op ++ codes "]"))) ++ x
        ≡ (to_string b.term ++ (codes " Op=" ++ (operation_str b.op ++ codes "]"))) ++ y =
      cc e in
    let (terms, rest) = number_cut_in 32 a.term b.term _ _ x y (omega arith) ha.0 hb.0 inner in
    let ops : (operation_str a.op ++ codes "]") ++ x ≡ (operation_str b.op ++ codes "]") ++ y =
      cc rest in
    let (kinds, flags, tail) =
      operation_cut a.op b.op (codes "]" ++ x) (codes "]" ++ y) ha.1 hb.1 (
        sym (append_assoc (operation_str a.op) _ x)
        ∙ ops
        ∙ append_assoc (operation_str b.op) _ y) in
    (cc (terms, kinds, flags), cc tail)

append_cancel : (s x y : Text) → s ++ x ≡ s ++ y → x ≡ y
append_cancel [] x y e = e
append_cancel (c ∷ s) x y e = append_cancel s x y (cc e)

entries_told :
    (i : ℕ) (es fs : List LogEntry)
    → AllPrinted es
    → AllPrinted fs
    → print_entries i es ≡ print_entries i fs
    → map shown es ≡ map shown fs
unfolding print_entries
entries_told i [] [] hes hfs e = refl
entries_told i [] (f ∷ fs) hes hfs e = absurd (ground (arith, e))
entries_told i (e' ∷ es) [] hes hfs e = absurd (ground (arith, e))
entries_told i (a ∷ es) (b ∷ fs) hes hfs e =
    let es' = 10 ∷ print_entries (suc i) es in
    let fs' = 10 ∷ print_entries (suc i) fs in
    let numbered : to_string (pos i) ++ 93 ∷ 9 ∷ (log_entry_str a ++ es')
        ≡ to_string (pos i) ++ 93 ∷ 9 ∷ (log_entry_str b ++ fs') =
      cc e in
    let line : log_entry_str a ++ es' ≡ log_entry_str b ++ fs' = cc (
      append_cancel (to_string (pos i)) (93 ∷ 9 ∷ (log_entry_str a ++ es'))
        (93 ∷ 9 ∷ (log_entry_str b ++ fs')) numbered) in
    let (same, rest) = entry_cut a b es' fs' hes.0 hfs.0 line in
    let later = entries_told (suc i) es fs hes.1 hfs.1 (cc rest) in cc (same, later)

-- Two log files of which the tool prints the same hold the same entries, in the same order, but for which
-- promises they had; for logs of the operations of clients.
pub read_store-tells :
    (layout : Layout LogEntry) (bytes others : List ℕ) (v w : Option ℤ)
    → AllPrinted (setup layout true bytes).items
    → AllPrinted (setup layout true others).items
    → read_store layout true bytes v ≡ read_store layout true others w
    → map shown (setup layout true bytes).items ≡ map shown (setup layout true others).items
unfolding read_store
read_store-tells layout bytes others v w hb ho e =
    entries_told 0 (setup layout true bytes).items (setup layout true others).items hb ho e
