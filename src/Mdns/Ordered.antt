-- ===== src/Mdns/Ordered.antt =====
-- `sorted` of texts in src/ddmp/discovery.py orders them, and keeps each as often as it is there.
use mathlib.Core.List.{Perm}
use mathlib.Core.List.Perm
use dometic_ddmp.Base.{◌≡◌, true, inl, inr, List, [], ◌∷◌, Bool-cases}
use dometic_ddmp.Text.{Text, text_leb}
use dometic_ddmp.Text.Order.{text_leb_total}
use dometic_ddmp.Mdns.Collector.{insert_text, sorted_texts}

-- Each text stands no later than the next one.
abbrev pub AreSorted : List Text → Type 0
AreSorted [] = Unit
AreSorted (t ∷ []) = Unit
AreSorted (t ∷ u ∷ us) = (text_leb t u ≡ true) × AreSorted (u ∷ us)

insert_text-AreSorted_below :
    (u t : Text) (us : List Text)
    → text_leb u t ≡ true
    → AreSorted (u ∷ us)
    → AreSorted (u ∷ insert_text t us)
unfolding insert_text
insert_text-AreSorted_below u t [] below h = (below, tt)
insert_text-AreSorted_below u t (v ∷ vs) below h = elim (Bool-cases (text_leb t v)) [
  | inl first ↦ rw (insert_text, first) (below, (first, h.1))
  | inr later ↦
      rw (insert_text, later)
        (h.0, insert_text-AreSorted_below v t vs (text_leb_total t v later) h.1)
]

insert_text-AreSorted : (t : Text) (us : List Text) → AreSorted us → AreSorted (insert_text t us)
unfolding insert_text
insert_text-AreSorted t [] h = tt
insert_text-AreSorted t (u ∷ us) h = elim (Bool-cases (text_leb t u)) [
  | inl first ↦ rw (insert_text, first) (first, h)
  | inr later ↦
      rw (insert_text, later) (insert_text-AreSorted_below u t us (text_leb_total t u later) h)
]

pub sorted_texts-AreSorted : (ts : List Text) → AreSorted (sorted_texts ts)
unfolding sorted_texts
sorted_texts-AreSorted [] = tt
sorted_texts-AreSorted (t ∷ ts) =
    insert_text-AreSorted t (sorted_texts ts) (sorted_texts-AreSorted ts)

insert_text-perm : (t : Text) (us : List Text) → Perm (insert_text t us) (t ∷ us)
unfolding insert_text
insert_text-perm t [] = Perm.refl (t ∷ [])
insert_text-perm t (u ∷ us) = elim (Bool-cases (text_leb t u)) [
  | inl first ↦ rw (insert_text, first) (Perm.refl (t ∷ u ∷ us))
  | inr later ↦
      rw (insert_text, later) (Perm.trans (Perm.cons u (insert_text-perm t us)) (Perm.swap t u us))
]

pub sorted_texts-perm : (ts : List Text) → Perm (sorted_texts ts) ts
unfolding sorted_texts
sorted_texts-perm [] = Perm.refl []
sorted_texts-perm (t ∷ ts) =
    Perm.trans (insert_text-perm t (sorted_texts ts)) (Perm.cons t (sorted_texts-perm ts))
