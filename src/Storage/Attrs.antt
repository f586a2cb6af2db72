-- ===== src/Storage/Attrs.antt =====
-- Maps of attributes: writing over, and counting.
use bnet_command_center.Base.{◌≡◌, refl, ◌∙◌, Option, none, some, [], ◌∷◌, ite, arith}
use bnet_command_center.Base.Map
use bnet_command_center.Text.{Text, Text-discrete}
use bnet_command_center.Storage.{AttrMap, Attributes, lookup, extend, overlay}

abbrev pub or_else {ℓ} : {A : Type ℓ} → Option A → Option A → Option A
or_else none other = other
or_else (some a) other = some a

abbrev pub IsUnique : AttrMap → Type 0
IsUnique m = Map.Unique Text-discrete m

pub overlay-agrees :
    (attrs : AttrMap) (f g : Attributes)
    → ((key : Text) → f key ≡ g key)
    → (key : Text) → overlay attrs f key ≡ overlay attrs g key
unfolding overlay
overlay-agrees [] f g h key = h key
overlay-agrees ((k, v) ∷ attrs) f g h key = overlay-agrees attrs _ _ (λ j. rw (h j)) key

pub lookup-extend :
    (attrs m : AttrMap) (key : Text) → lookup (extend m attrs) key ≡ overlay attrs (lookup m) key
unfolding lookup extend overlay
lookup-extend [] m key = refl
lookup-extend ((k, v) ∷ attrs) m key =
    lookup-extend attrs (Map.insert Text-discrete k v m) key
    ∙ overlay-agrees attrs _ _ (λ j. Map.get-insert Text-discrete k j v m) key

pub extend-IsUnique : (attrs m : AttrMap) → IsUnique m → IsUnique (extend m attrs)
unfolding extend
extend-IsUnique [] m u = u
extend-IsUnique ((k, v) ∷ attrs) m u =
    extend-IsUnique attrs (Map.insert Text-discrete k v m) (Map.insert-Unique Text-discrete k v m u)

-- With one value for each key, the order of the writes does not matter.
pub overlay-lookup :
    (attrs : AttrMap) (below : Attributes) (key : Text)
    → IsUnique attrs
    → overlay attrs below key ≡ or_else (lookup attrs key) (below key)
unfolding lookup overlay Map.get
overlay-lookup [] below key u = refl
overlay-lookup ((k, v) ∷ attrs) below key u =
    ground
      (arith, overlay-lookup attrs (λ j. ite (Text-discrete k j) (some v) (below j)) key u.1, u.0)

pub or_else-none : {A : Type 0} (o : Option A) → or_else o none ≡ o
or_else-none none = refl
or_else-none (some a) = refl

pub lookup-fresh :
    (attrs : AttrMap) (key : Text)
    → IsUnique attrs
    → lookup (extend [] attrs) key ≡ lookup attrs key
unfolding lookup Map.get
lookup-fresh attrs key u =
    lookup-extend attrs [] key
    ∙ overlay-lookup attrs (lookup []) key u
    ∙ or_else-none (lookup attrs key)
