-- ===== src/DeepCopy/Separate.antt =====
-- A pointer and its copy, whose targets stand apart.
use mathlib.Core.Option
use k8s_health_ai.Prelude.{◌≡◌, ◌≤◌, refl, ap, ◌∙◌, Option, none, some, length, arith}
use k8s_health_ai.DeepCopy.Cells.{
  Address, Store, read, copy_pointer, write_through, IsIn, IsFresh, Grows,
  copy_pointer-PointerCopied, read-write_through, IsFresh-IsApart,
}

module _ {A : Type 0} where
  -- `st'` holds what `st` held, and `q` is a new pointer to what `p` points to.
  pub record Separate (st st' : Store A) (p q : Option Address) : Type 0 where
    pub valid : IsIn st p
    pub fresh : IsFresh st q
    pub inside : IsIn st' q
    pub grows : Grows st st'
    pub copied : read st' q ≡ read st p

  pub IsIn-longer :
      (st st' : Store A) (p : Option Address) → length st ≤ length st' → IsIn st p → IsIn st' p
  IsIn-longer st st' none le h = tt
  IsIn-longer st st' (some a) le h = omega arith

  IsFresh-shorter :
      (st st' : Store A) (p : Option Address)
      → length st ≤ length st'
      → IsFresh st' p
      → IsFresh st p
  IsFresh-shorter st st' none le h = tt
  IsFresh-shorter st st' (some a) le h = omega arith

  pub Grows-trans : (st t u : Store A) → Grows st t → Grows t u → Grows st u
  Grows-trans st t u g h = record {
    longer = omega (arith, g.longer, h.longer);
    keeps = λ p i. h.keeps p (IsIn-longer st t p g.longer i) ∙ g.keeps p i;
  }

  map_same : (f : A → A) → ((x : A) → f x ≡ x) → (o : Option A) → Option.map f o ≡ o
  map_same f h none = refl
  map_same f h (some x) = ap some (h x)

  -- the copy of a pointer of `st`, made in a memory that holds what `st` held
  pub copy_pointer-Separate :
      (f : A → A)
      → ((x : A) → f x ≡ x)
      → (st t : Store A) (p : Option Address) → Grows st t
      → IsIn st p
      → Separate st (copy_pointer f t p).1 p (copy_pointer f t p).0
  copy_pointer-Separate f h st t p g i =
      let c = copy_pointer-PointerCopied f t p (IsIn-longer st t p g.longer i) in
      record {
        valid = i;
        fresh = IsFresh-shorter st t _ g.longer c.fresh;
        inside = c.inside;
        grows = Grows-trans st t _ g c.grows;
        copied = c.copied ∙ map_same f h (read t p) ∙ g.keeps p i;
      }

  pub Separate-later :
      (st t u : Store A) (p q : Option Address) → Separate st t p q → Grows t u → Separate st u p q
  Separate-later st t u p q s g = record {
    valid = s.valid;
    fresh = s.fresh;
    inside = IsIn-longer t u q g.longer s.inside;
    grows = Grows-trans st t u s.grows g;
    copied = g.keeps q s.inside ∙ s.copied;
  }

  pub kept :
      {st st' : Store A} {p q : Option Address} → Separate st st' p q → read st' p ≡ read st p
  kept {p} s = s.grows.keeps p s.valid

  -- A write through a new pointer is not seen through an old one, nor one through an old pointer
  -- through a new one.
  pub old_unseen :
      (st st' : Store A) (p q r s : Option Address) (y : A)
      → Separate st st' p q
      → Separate st st' r s
      → read (write_through st' q y) r ≡ read st r
  old_unseen st st' p q r s y a b =
      read-write_through st' q r y (IsFresh-IsApart st r q b.valid a.fresh).1
      ∙ b.grows.keeps r b.valid

  pub new_unseen :
      (st st' : Store A) (p q r s : Option Address) (y : A)
      → Separate st st' p q
      → Separate st st' r s
      → read (write_through st' p y) s ≡ read st r
  new_unseen st st' p q r s y a b =
      read-write_through st' p s y (IsFresh-IsApart st p s a.valid b.fresh).0 ∙ b.copied
