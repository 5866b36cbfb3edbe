-- ===== src/DlList/Unlink.antt =====
-- What the removal of an element does to memory.
use mathlib.Core.Path.{ap₂}
use os_lab_nachos.Base.{
  ℕ, ◌<◌, ◌≡◌, ◌≢◌, refl, ◌∙◌, ap, sym, true, false, some, List, [], ◌∷◌, ◌++◌, arith, length,
}
use os_lab_nachos.Base.Exec.{ok}
use os_lab_nachos.DlList.Heap.{null, Element, DlList, load}
use os_lab_nachos.DlList.{take_first, unlink}
use os_lab_nachos.DlList.Chain.{
  Cell, has, head_of, last_of, Linked, Distinct, Below, IsList, modify-ne, modify-cong, load-ok,
  has-ne, relink_next, relink_prev, Linked-split, Distinct-split, Below-split, at_last, has_head,
  has_last, has-ne, Below-last, last_of-append,
}
use os_lab_nachos.DlList.Shrunk.{shrunk, shrunk-IsList}
use os_lab_nachos.DlList.Branches.{take_alone, take_at, unlink_first, unlink_last, unlink_inner}

module _ (d : DlList) where
  module _ (c x : Cell) (zs : List Cell) (is : IsList d (c ∷ x ∷ zs)) where
    abbrev beheaded : DlList
    beheaded = shrunk d [] (x ∷ zs) (relink_prev d.cells x.address null)

    beheaded-IsList : IsList beheaded (x ∷ zs)
    beheaded-IsList =
        shrunk-IsList d [] c (x ∷ zs) is _ (record { left = λ a i. cc; right = λ a i. refl })

    more : d.first ≢ d.last
    more e = has-ne (x ∷ zs) (has_last x zs) is.distinct.0 (sym (sym is.first ∙ e ∙ is.last))

    behead_state :
        record d { cells = relink_prev d.cells x.address null; first = x.address } ≡ beheaded
    behead_state =
        ap
          (λ (p : ℕ). record d {
            cells = relink_prev d.cells x.address null;
            first = x.address;
            last = p;
          })
          is.last

    pub take_cons : take_first true d ≡ ok (c.item, c.key) beheaded
    take_cons =
        take_at d x.address _ _ (rw is.first is.below.0, is.below.2.0)
          (ap d.cells is.first ∙ is.linked.0) is.linked.1.0 refl more
        ∙ ap (ok (c.item, c.key)) behead_state

    pub unlink_head : unlink c.address d ≡ ok tt beheaded
    unlink_head =
        unlink_first d c.address x.address _ _ (is.below.0, is.below.2.0) (sym is.first) is.linked.0
          is.linked.1.0 refl
        ∙ ap (ok tt) behead_state

  -- an element behind others
  module _ (y : Cell) (ys : List Cell) (c : Cell) (zs : List Cell)
      (is : IsList d ((y ∷ ys) ++ c ∷ zs)) where
    abbrev before : ℕ
    before = last_of y.address ys

    links : Linked d.cells null (y ∷ ys) c.address × Linked d.cells before (c ∷ zs) null
    links = Linked-split d.cells null (y ∷ ys) (c ∷ zs) null is.linked

    small : Below d.fresh (y ∷ ys) × Below d.fresh (c ∷ zs)
    small = Below-split d.fresh (y ∷ ys) (c ∷ zs) is.below

    apart :
        Distinct (y ∷ ys)
        × Distinct (c ∷ zs)
        × ((a : ℕ) → has a (y ∷ ys) ≡ true → has a (c ∷ zs) ≡ false)
    apart = Distinct-split (y ∷ ys) (c ∷ zs) is.distinct

    last_element : (e : Element) × (d.cells before ≡ some e)
    last_element = at_last d.cells null y ys c.address links.0

    before_bounds : (null < before) × (before < d.fresh)
    before_bounds = Below-last d.fresh y ys small.0

    inner : c.address ≢ d.first
    inner e = has-ne (c ∷ zs) (has_head c zs) (apart.2 y.address (has_head y ys)) (e ∙ is.first)

    apart_ne : (a b : ℕ) → has a (y ∷ ys) ≡ true → has b (c ∷ zs) ≡ true → a ≢ b
    apart_ne a b i j e = has-ne (c ∷ zs) j (apart.2 a i) (sym e)

    before-ne : before ≢ c.address
    before-ne = apart_ne before c.address (has_last y ys) (has_head c zs)

    last_is : d.last ≡ last_of c.address zs
    last_is = is.last ∙ last_of-append y.address ys (c ∷ zs)

  unlink_tail :
      (y : Cell) (ys : List Cell) (c : Cell) (is : IsList d ((y ∷ ys) ++ c ∷ []))
      → unlink c.address d
        ≡ ok tt (shrunk d (y ∷ ys) [] (relink_next d.cells (last_of y.address ys) null))
  unlink_tail y ys c is =
      unlink_last d c.address (last_of y.address ys) _ (last_element y ys c [] is).0
        ((small y ys c [] is).1.0, (before_bounds y ys c [] is).0) (inner y ys c [] is)
        (sym (last_is y ys c [] is)) (links y ys c [] is).1.0 (last_element y ys c [] is).1 refl
      ∙ ap
          (λ (p : ℕ). ok tt (record d {
            cells = relink_next d.cells (last_of y.address ys) null;
            first = p;
            last = last_of y.address ys;
          }))
          is.first

  unlink_middle :
      (y : Cell) (ys : List Cell) (c x : Cell) (zs : List Cell)
      (is : IsList d ((y ∷ ys) ++ c ∷ x ∷ zs))
      → let b = last_of y.address ys in
        unlink c.address d
        ≡ ok tt
            (shrunk d (y ∷ ys) (x ∷ zs) (relink_prev (relink_next d.cells b x.address) x.address b))
  unlink_middle y ys c x zs is =
      let b = last_of y.address ys in
      let l = links y ys c (x ∷ zs) is in
      let s = small y ys c (x ∷ zs) is in
      let e = last_element y ys c (x ∷ zs) is in
      unlink_inner d c.address b x.address _ e.0 _
        (s.1.0, (before_bounds y ys c (x ∷ zs) is).0, s.1.2.0) (inner y ys c (x ∷ zs) is)
        (λ q.
          has-ne (x ∷ zs) (has_last x zs) (apart y ys c (x ∷ zs) is).1.0
            (sym (q ∙ last_is y ys c (x ∷ zs) is)))
        l.1.0 e.1 l.1.1.0 refl refl
      ∙ ap₂
          (λ (p q : ℕ). ok tt (record d {
            cells = relink_prev (relink_next d.cells b x.address) x.address b;
            first = p;
            last = q;
          }))
          is.first (last_is y ys c (x ∷ zs) is)

  -- In memory the removed element stays as it was.
  abbrev pub Unlinks : List Cell → Cell → List Cell → Type 0
  Unlinks ys c zs =
      (d' : DlList) × (unlink c.address d ≡ ok tt d')
      × IsList d' (ys ++ zs)
      × (load c.address d'
          ≡ ok
              (record {
                next = head_of zs null;
                prev = last_of null ys;
                key = c.key;
                item = c.item;
              })
              d')
      × (d'.lock ≡ d.lock)

  unlink-first : (c x : Cell) (zs : List Cell) → IsList d (c ∷ x ∷ zs) → Unlinks [] c (x ∷ zs)
  unlink-first c x zs is = (
    _,
    unlink_head c x zs is,
    beheaded-IsList c x zs is,
    load-ok _ c.address is.below.0
        (modify-ne d.cells _ (has-ne (x ∷ zs) (has_head x zs) is.distinct.0) ∙ is.linked.0),
    refl,
  )

  unlink-last :
      (y : Cell) (ys : List Cell) (c : Cell) → IsList d ((y ∷ ys) ++ c ∷ []) → Unlinks (y ∷ ys) c []
  unlink-last y ys c is = (
    _,
    unlink_tail y ys c is,
    shrunk-IsList d (y ∷ ys) c [] is _ (record { left = λ a i. refl; right = λ a i. cc }),
    load-ok _ c.address (small y ys c [] is).1.0
        (modify-ne d.cells _ (before-ne y ys c [] is) ∙ (links y ys c [] is).1.0),
    refl,
  )

  unlink-middle :
      (y : Cell) (ys : List Cell) (c x : Cell) (zs : List Cell)
      → IsList d ((y ∷ ys) ++ c ∷ x ∷ zs)
      → Unlinks (y ∷ ys) c (x ∷ zs)
  unlink-middle y ys c x zs is = (
    _,
    unlink_middle y ys c x zs is,
    shrunk-IsList d (y ∷ ys) c (x ∷ zs) is _ (record {
      left = λ a i.
          modify-ne (relink_next d.cells (last_of y.address ys) x.address) _
            (λ e. apart_ne y ys c (x ∷ zs) is a x.address i (ground arith) (sym e));
      right = λ a i. modify-cong _ d.cells x.address a _ (
          modify-ne d.cells _
            (apart_ne y ys c (x ∷ zs) is (last_of y.address ys) a (has_last y ys) (ground arith)));
    }),
    load-ok _ c.address (small y ys c (x ∷ zs) is).1.0 (
        modify-ne (relink_next d.cells (last_of y.address ys) x.address) _
          (has-ne (x ∷ zs) (has_head x zs) (apart y ys c (x ∷ zs) is).1.0)
        ∙ modify-ne d.cells _ (before-ne y ys c (x ∷ zs) is)
        ∙ (links y ys c (x ∷ zs) is).1.0),
    refl,
  )

  -- `Remove` of the head of a list that is not empty.
  pub take_first_lem :
      (c : Cell) (zs : List Cell)
      → IsList d (c ∷ zs)
      → (d' : DlList) × (take_first true d ≡ ok (c.item, c.key) d')
        × IsList d' zs
        × (d'.lock ≡ d.lock)
  take_first_lem c [] is = (
    _,
    take_alone d c is,
    shrunk-IsList d [] c [] is d.cells (record { left = λ a i. cc; right = λ a i. cc }),
    refl,
  )
  take_first_lem c (x ∷ zs) is = (_, take_cons c x zs is, beheaded-IsList c x zs is, refl)

  -- `unlink` of an element that is not the only one.
  pub unlink_lem :
      (ys : List Cell) (c : Cell) (zs : List Cell)
      → IsList d (ys ++ c ∷ zs)
      → 1 < length (ys ++ c ∷ zs)
      → Unlinks ys c zs
  unlink_lem [] c [] is more = absurd (omega arith)
  unlink_lem [] c (x ∷ zs) is more = unlink-first c x zs is
  unlink_lem (y ∷ ys) c [] is more = unlink-last y ys c is
  unlink_lem (y ∷ ys) c (x ∷ zs) is more = unlink-middle y ys c x zs is
