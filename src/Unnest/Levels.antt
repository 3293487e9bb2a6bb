-- ===== src/Unnest/Levels.antt =====
-- What `flatten` gives: the items level by level.
use crunch_lang.Prelude.{
  ℕ, zero, suc, ◌+◌, ◌≤◌, ◌≡◌, refl, sym, ap, subst, ◌∙◌, Bool, true, false, not, none, some, List,
  [], ◌∷◌, ◌++◌, append-nil, append_assoc, arith, if◌then◌else◌,
}
use crunch_lang.Ast.{Item, item, Items, no_items, add_item, ItemKind}
use crunch_lang.Unnest.{list_of, visit_item, keep, flatten_loop, size, size_items, sizes, flatten}

-- Whether an item is an external block, and the items in it.
abbrev pub is_block : Item → Bool
is_block (item ds as_ (ItemKind.extern_block block_items) loc name vis) = true
is_block i = false

abbrev pub inner : Item → List Item
inner (item ds as_ (ItemKind.extern_block block_items) loc name vis) = list_of block_items
inner i = []

-- The items of a level that are no external blocks, and the level below.
abbrev pub plain : List Item → List Item
plain [] = []
plain (i ∷ items) = if is_block i then plain items else i ∷ plain items

abbrev pub below : List Item → List Item
below [] = []
below (i ∷ items) = inner i ++ below items

-- The items of so many levels, the top level first.
abbrev pub levels : ℕ → List Item → List Item
levels zero items = []
levels (suc depth) items = plain items ++ levels depth (below items)

sizes-append : (as_ bs : List Item) → sizes (as_ ++ bs) ≡ sizes as_ + sizes bs
sizes-append [] bs = omega arith
sizes-append (i ∷ as_) bs = omega (arith, sizes-append as_ bs)

size_items-eq : (is : Items) → size_items is ≡ sizes (list_of is)
size_items-eq no_items = refl
size_items-eq (add_item i is) = ap (λ n. size i + n) (size_items-eq is)

-- An item counts one more than the items in it.
size-inner : (i : Item) → size i ≡ suc (sizes (inner i))
size-inner (item ds as_ (ItemKind.extern_block b) loc name vis) = ap suc (size_items-eq b)
size-inner (item ds as_ kind loc name vis) = refl

visit_item-eq :
    (items : List Item) (i : Item) → visit_item items i ≡ (items ++ inner i, not (is_block i))
visit_item-eq items (item ds as_ (ItemKind.extern_block b) loc name vis) = refl
visit_item-eq items (item ds as_ kind loc name vis) = ap (λ r. (r, true)) (sym (append-nil items))

keep-plain :
    (out : List Item) (i : Item) (items : List Item)
    → keep out i (not (is_block i)) ++ plain items ≡ out ++ plain (i ∷ items)
keep-plain out i items = decide (is_block i)
  where
    decide :
        (b : Bool)
        → keep out i (not b) ++ plain items ≡ out ++ (if b then plain items else i ∷ plain items)
    decide true = refl
    decide false = append_assoc out (i ∷ []) (plain items)

flatten_loop-step :
    (fuel : ℕ) (i : Item) (items out : List Item)
    → flatten_loop (suc fuel) (i ∷ items) out
      ≡ flatten_loop fuel (items ++ inner i) (keep out i (not (is_block i)))
unfolding flatten_loop
flatten_loop-step fuel i items out =
    ap (λ r. flatten_loop fuel (r.0) (keep out i (r.1))) (visit_item-eq items i)

-- A round takes one item off the count.
sizes-step :
    (fuel : ℕ) (i : Item) (items queue : List Item)
    → suc fuel ≡ sizes (i ∷ items ++ queue)
    → fuel ≡ sizes (items ++ (queue ++ inner i))
sizes-step fuel i items queue e = omega (
  arith,
  e,
  size-inner i,
  sizes-append items queue,
  sizes-append items (queue ++ inner i),
  sizes-append queue (inner i),
)

-- The loop takes a level, which may have items behind it, and leaves the level below behind those.
loop-level :
    (fuel : ℕ) (items queue out : List Item)
    → fuel ≡ sizes (items ++ queue)
    → flatten_loop fuel (items ++ queue) out
      ≡ flatten_loop (sizes (queue ++ below items)) (queue ++ below items) (out ++ plain items)
loop-level fuel [] queue out e = rw (append-nil queue, append-nil out, e) refl
loop-level zero (i ∷ items) queue out e = absurd (omega (arith, e, size-inner i))
loop-level (suc fuel) (i ∷ items) queue out e =
    let kept = keep out i (not (is_block i)) in
    flatten_loop-step fuel i (items ++ queue) out
    ∙ ap (λ is. flatten_loop fuel is kept) (append_assoc items queue (inner i))
    ∙ loop-level fuel items (queue ++ inner i) kept (sizes-step fuel i items queue e)
    ∙ ap (λ is. flatten_loop (sizes is) is (kept ++ plain items))
        (append_assoc queue (inner i) (below items))
    ∙ ap (flatten_loop (sizes (queue ++ below (i ∷ items))) (queue ++ below (i ∷ items)))
        (keep-plain out i items)

below-sizes : (items : List Item) → sizes (below items) ≤ sizes items
below-sizes [] = omega arith
below-sizes (i ∷ items) =
    omega (arith, sizes-append (inner i) (below items), size-inner i, below-sizes items)

-- A level below one that is not empty has fewer items.
below-fewer :
    (depth : ℕ) (items : List Item) → sizes items ≤ suc depth → sizes (below items) ≤ depth
below-fewer depth [] l = omega arith
below-fewer depth (i ∷ items) l =
    omega (arith, sizes-append (inner i) (below items), size-inner i, below-sizes items, l)

loop-levels :
    (depth : ℕ) (items out : List Item)
    → sizes items ≤ depth
    → flatten_loop (sizes items) items out ≡ some (out ++ levels depth items)
unfolding flatten_loop
loop-levels zero [] out l = ap some (sym (append-nil out))
loop-levels zero (i ∷ items) out l = absurd (omega (arith, size-inner i))
loop-levels (suc depth) items out l =
    ap (λ is. flatten_loop (sizes items) is out) (sym (append-nil items))
    ∙ loop-level (sizes items) items [] out (ap sizes (sym (append-nil items)))
    ∙ loop-levels depth (below items) (out ++ plain items) (below-fewer depth items l)
    ∙ ap some (append_assoc out (plain items) (levels depth (below items)))

-- Flattening ends, and gives the items of a file level by level: first those that stand in no
-- external block, then those that stand in one, then those that stand in two, each level in the
-- order of the file. The external blocks themselves are dropped, and no other item is.
pub flatten-levels : (items : List Item) → flatten items ≡ some (levels (sizes items) items)
unfolding flatten
flatten-levels items = loop-levels (sizes items) items [] (omega arith)

-- No item of a list is an external block.
abbrev pub NoBlocks : List Item → Type 0
NoBlocks [] = Unit
NoBlocks (i ∷ items) = (is_block i ≡ false) × NoBlocks items

NoBlocks-append : (as_ bs : List Item) → NoBlocks as_ → NoBlocks bs → NoBlocks (as_ ++ bs)
NoBlocks-append [] bs h k = k
NoBlocks-append (i ∷ as_) bs h k = (h.0, NoBlocks-append as_ bs h.1 k)

plain-NoBlocks : (items : List Item) → NoBlocks (plain items)
plain-NoBlocks [] = tt
plain-NoBlocks (i ∷ items) = decide (is_block i) refl (plain-NoBlocks items)
  where
    decide :
        (b : Bool)
        → is_block i ≡ b
        → NoBlocks (plain items)
        → NoBlocks (if b then plain items else i ∷ plain items)
    decide true e h = h
    decide false e h = (e, h)

levels-NoBlocks : (depth : ℕ) (items : List Item) → NoBlocks (levels depth items)
levels-NoBlocks zero items = tt
levels-NoBlocks (suc depth) items =
    NoBlocks-append (plain items) (levels depth (below items)) (plain-NoBlocks items)
      (levels-NoBlocks depth (below items))

plain-same : (items : List Item) → NoBlocks items → plain items ≡ items
plain-same [] h = refl
plain-same (i ∷ items) h = rw (h.0, plain-same items h.1) refl

below-nil : (items : List Item) → NoBlocks items → below items ≡ []
below-nil [] h = refl
below-nil (i ∷ items) h = rw (inner-nil i h.0, below-nil items h.1) refl
  where
    inner-nil : (j : Item) → is_block j ≡ false → inner j ≡ []
    inner-nil (item ds as_ (ItemKind.extern_block b) loc name vis) e = cc
    inner-nil (item ds as_ kind loc name vis) e = refl

levels-nil : (depth : ℕ) → levels depth [] ≡ []
levels-nil zero = refl
levels-nil (suc depth) = levels-nil depth

levels-same :
    (depth : ℕ) (items : List Item)
    → NoBlocks items
    → sizes items ≤ depth
    → levels depth items ≡ items
levels-same zero [] h l = refl
levels-same zero (i ∷ items) h l = absurd (omega (arith, size-inner i))
levels-same (suc depth) items h l =
    rw (plain-same items h, below-nil items h, levels-nil depth) (append-nil items)

pub some-injective : (as_ bs : List Item) → some as_ ≡ some bs → as_ ≡ bs
some-injective as_ bs e = ap (λ o. elim o [ none ↦ [] | some cs ↦ cs ]) e

-- The result of flattening contains no external block, so that flattening it again ends and changes
-- nothing.
pub flatten-flatten :
    (items out : List Item) → flatten items ≡ some out → NoBlocks out × (flatten out ≡ some out)
flatten-flatten items out e =
    let same = some-injective (levels (sizes items) items) out (sym (flatten-levels items) ∙ e) in
    let h = subst NoBlocks same (levels-NoBlocks (sizes items) items) in
    (h, flatten-levels out ∙ ap some (levels-same (sizes out) out h (omega arith)))
