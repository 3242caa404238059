-- ===== src/PageLoader/Service/Dedup.antt =====
-- The list helpers of page_loader_service.rs keep what they should.
use mathlib.Core.List.{Memᴰ}
use tarantula.Base.{
  subst, ◌≡◌, refl, inl, inr, Bool, true, false, List, [], ◌∷◌, arith, Bool-cases, retain, Text,
  mem, text_eq, text_eq_iff,
}
use tarantula.Responses.Link.{Link}
use tarantula.PageLoader.Service.{dedup_links, dedup_after, dedup_texts, dedup_texts_after}

mem-dedup_texts_after :
    (url previous : Text) (texts : List Text)
    → mem url (previous ∷ dedup_texts_after previous texts) ≡ mem url (previous ∷ texts)
unfolding dedup_texts_after
mem-dedup_texts_after url previous [] = refl
mem-dedup_texts_after url previous (text ∷ texts) = elim (Bool-cases (text_eq text previous)) [
  | inl same ↦
      ground (arith, same, text_eq_iff text previous, mem-dedup_texts_after url previous texts)
  | inr other ↦ ground (arith, other, mem-dedup_texts_after url text texts)
]

pub mem-dedup_texts : (url : Text) (texts : List Text) → mem url (dedup_texts texts) ≡ mem url texts
unfolding dedup_texts
mem-dedup_texts url [] = refl
mem-dedup_texts url (text ∷ texts) = mem-dedup_texts_after url text texts

Memᴰ-cons :
    {link a : Link} {links links' : List Link}
    → (Memᴰ link links → Memᴰ link links')
    → Memᴰ link (a ∷ links)
    → Memᴰ link (a ∷ links')
Memᴰ-cons f (Memᴰ.head e) = Memᴰ.head e
Memᴰ-cons f (Memᴰ.tail m) = Memᴰ.tail (f m)

dedup_after-same :
    (uri : Text) (a : Link) (links : List Link)
    → text_eq a.uri uri ≡ true
    → dedup_after uri (a ∷ links) ≡ dedup_after uri links
unfolding dedup_after
dedup_after-same uri a links h = rw h refl

dedup_after-other :
    (uri : Text) (a : Link) (links : List Link)
    → text_eq a.uri uri ≡ false
    → dedup_after uri (a ∷ links) ≡ a ∷ dedup_after a.uri links
unfolding dedup_after
dedup_after-other uri a links h = rw h refl

retain-keep :
    (p : Link → Bool) (a : Link) (links : List Link)
    → p a ≡ true
    → retain p (a ∷ links) ≡ a ∷ retain p links
retain-keep p a links h = rw h refl

retain-drop :
    (p : Link → Bool) (a : Link) (links : List Link)
    → p a ≡ false
    → retain p (a ∷ links) ≡ retain p links
retain-drop p a links h = rw h refl

Memᴰ-dedup_after :
    (link : Link) (uri : Text) (links : List Link)
    → Memᴰ link (dedup_after uri links)
    → Memᴰ link links
unfolding dedup_after
Memᴰ-dedup_after link uri [] m = m
Memᴰ-dedup_after link uri (a ∷ links) m = elim (Bool-cases (text_eq a.uri uri)) [
  | inl same ↦
      Memᴰ.tail
        (Memᴰ-dedup_after link uri links (subst (Memᴰ link) (dedup_after-same uri a links same) m))
  | inr other ↦
      Memᴰ-cons (Memᴰ-dedup_after link a.uri links)
        (subst (Memᴰ link) (dedup_after-other uri a links other) m)
]

pub Memᴰ-dedup_links :
    (link : Link) (links : List Link) → Memᴰ link (dedup_links links) → Memᴰ link links
unfolding dedup_links
Memᴰ-dedup_links link [] m = m
Memᴰ-dedup_links link (a ∷ links) (Memᴰ.head e) = Memᴰ.head e
Memᴰ-dedup_links link (a ∷ links) (Memᴰ.tail m) = Memᴰ.tail (Memᴰ-dedup_after link a.uri links m)

pub Memᴰ-retain :
    (p : Link → Bool) (link : Link) (links : List Link)
    → Memᴰ link (retain p links)
    → Memᴰ link links
Memᴰ-retain p link [] m = m
Memᴰ-retain p link (a ∷ links) m = elim (Bool-cases (p a)) [
  | inl keep ↦
      Memᴰ-cons (Memᴰ-retain p link links) (subst (Memᴰ link) (retain-keep p a links keep) m)
  | inr drop ↦
      Memᴰ.tail (Memᴰ-retain p link links (subst (Memᴰ link) (retain-drop p a links drop) m))
]
