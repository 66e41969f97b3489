-- ===== src/Tracing/Forest.antt =====
-- Lists of finished spans, in the order in which they end, as trees below a root.
use rastir.Base.{
  String, ◌≡◌, refl, Bool, true, false, ◌&&◌, ◌||◌, Option, none, some, List, [], ◌∷◌, ◌++◌, arith,
  str_eq, eq_iff,
}
use rastir.SpanRecord.{SpanRecord}

unfoldable pub has_id : String → List SpanRecord → Bool
has_id i [] = false
has_id i (s ∷ l) = str_eq s.span_id i || has_id i l

-- The parent is the root or a span further on in the list.
unfoldable pub child_of : String → List SpanRecord → Option String → Bool
child_of root l none = false
child_of root l (some i) = str_eq i root || has_id i l

-- Every span hangs below the root: its parent is the root or a span that ends later.
unfoldable pub linked : String → List SpanRecord → Bool
unfolding child_of
linked root [] = true
linked root (s ∷ l) = child_of root l s.parent_id && linked root l

unfoldable pub in_trace : String → List SpanRecord → Bool
in_trace id [] = true
in_trace id (s ∷ l) = str_eq s.trace_id id && in_trace id l

has_id-append :
    (i : String) (xs ys : List SpanRecord) → has_id i (xs ++ ys) ≡ (has_id i xs || has_id i ys)
unfolding has_id
has_id-append i [] ys = refl
has_id-append i (x ∷ xs) ys = ground (arith, has_id-append i xs ys)

child_of-append :
    (root : String) (xs ys : List SpanRecord) (parent : Option String)
    → child_of root xs parent ≡ true
    → child_of root (xs ++ ys) parent ≡ true
unfolding child_of
child_of-append root xs ys none h = h
child_of-append root xs ys (some i) h = ground (arith, has_id-append i xs ys)

pub linked-append :
    (root : String) (xs ys : List SpanRecord)
    → linked root xs ≡ true
    → linked root ys ≡ true
    → linked root (xs ++ ys) ≡ true
unfolding linked
linked-append root [] ys hx hy = hy
linked-append root (x ∷ xs) ys hx hy =
    ground (arith, linked-append root xs ys, child_of-append root xs ys x.parent_id)

pub in_trace-append :
    (id : String) (xs ys : List SpanRecord)
    → in_trace id xs ≡ true
    → in_trace id ys ≡ true
    → in_trace id (xs ++ ys) ≡ true
unfolding in_trace
in_trace-append id [] ys hx hy = hy
in_trace-append id (x ∷ xs) ys hx hy = ground (arith, in_trace-append id xs ys)

-- What hangs below a span, followed by that span, hangs below its parent.
child_of-last :
    (root : String) (xs : List SpanRecord) (own : SpanRecord) (parent : Option String)
    → child_of own.span_id xs parent ≡ true
    → child_of root (xs ++ own ∷ []) parent ≡ true
unfolding child_of has_id
child_of-last root xs own none h = h
child_of-last root xs own (some i) h =
    ground (arith, has_id-append i xs (own ∷ []), eq_iff i own.span_id, eq_iff own.span_id i)

pub linked-last :
    (root : String) (xs : List SpanRecord) (own : SpanRecord)
    → linked own.span_id xs ≡ true
    → own.parent_id ≡ some root
    → linked root (xs ++ own ∷ []) ≡ true
unfolding linked child_of
linked-last root [] own h e = ground (arith, eq_iff root root)
linked-last root (x ∷ xs) own h e =
    ground (arith, linked-last root xs own, child_of-last root xs own x.parent_id)
