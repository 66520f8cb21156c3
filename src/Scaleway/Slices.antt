-- ===== src/Scaleway/Slices.antt =====
-- Go slices: reflect.DeepEqual tells a nil slice from an empty one.
use scaleway_cloud_controlle.Base.{Option, none, some, List, []}

abbrev pub Slice : Type 0 → Type 0
Slice A = Option (List A)

abbrev pub items : {A : Type 0} → Slice A → List A
items none = []
items (some xs) = xs
