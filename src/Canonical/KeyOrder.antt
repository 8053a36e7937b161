-- ===== src/Canonical/KeyOrder.antt =====
-- The canonical text of an object does not depend on the order in which its members were set.
use mathlib.Core.List.{Perm, Permᴰ, Nodup, Nodup-cons, mem-cons}
use mathlib.Core.List.Perm
use mathlib.Core.List.Permᴰ
use mathlib.Core.Logic.{∥∥₁_elim}
use mathlib.Core.Logic.Or
use aurora_scholar.Prelude.{◌≡◌, refl, sym, ◌∙◌, subst, List, [], ◌∷◌, map}
use aurora_scholar.Text.{Text}
use aurora_scholar.Canonical.{
  Value, obj, Fields, end, field, members, sort_entries, render_object, stable_stringify, entries,
}
use aurora_scholar.Canonical.Order.{insert_entry_comm}

abbrev key_of : {A : Type 0} → Text × A → Text
key_of e = e.0

abbrev pub keys : {A : Type 0} → List (Text × A) → List Text
keys es = map key_of es

abbrev stringify_member : Text × Value → Text × Text
stringify_member (k, v) = (k, stable_stringify v)

entries_lem : (fs : Fields) → entries fs ≡ map stringify_member (members fs)
unfolding stable_stringify
entries_lem end = refl
entries_lem (field k v fs) = rw (entries_lem fs)

keys-entries : (ms : List (Text × Value)) → keys (map stringify_member ms) ≡ keys ms
keys-entries [] = refl
keys-entries ((k, v) ∷ ms) = rw (keys-entries ms)

abbrev Distinct : {A : Type 0} → List (Text × A) → Type 0
Distinct es = Nodup (keys es)

Distinct-perm : {es gs : List (Text × Text)} → Permᴰ es gs → Distinct es → Distinct gs
Distinct-perm p d = Perm.nodup ∣ Permᴰ.map key_of p ∣₁ d

sort_entries-perm :
    {es gs : List (Text × Text)} → Permᴰ es gs → Distinct es → sort_entries es ≡ sort_entries gs
unfolding sort_entries
sort_entries-perm Permᴰ.nil d = refl
sort_entries-perm (Permᴰ.cons e p) d = cc (e, sort_entries-perm p (Nodup-cons.0 d).1)
sort_entries-perm (Permᴰ.swap {a} {b} {l} e f) d =
    rw (← e, ← f)
      (insert_entry_comm a b (sort_entries l)
        (λ same. (Nodup-cons.0 d).0 (mem-cons.1 (Or.inl same))))
sort_entries-perm (Permᴰ.trans p q) d =
    sort_entries-perm p d ∙ sort_entries-perm q (Distinct-perm p d)

Text-set : IsSet Text
Text-set = hlevel

-- Two objects whose members are the same up to order, with no key twice, have one canonical text:
-- the wallet that signs and the server that verifies agree on it whatever order they build it in.
pub stable_stringify-perm :
    (fs gs : Fields)
    → Nodup (keys (members fs))
    → Perm (members fs) (members gs)
    → stable_stringify (obj fs) ≡ stable_stringify (obj gs)
unfolding stable_stringify render_object
stable_stringify-perm fs gs d p = ∥∥₁_elim p (Text-set _ _) λ q. rw (
  entries_lem fs,
  entries_lem gs,
  sort_entries-perm (Permᴰ.map stringify_member q)
      (subst (λ ks. Nodup ks) (sym (keys-entries (members fs))) d),
)
