-- ===== src/Staff/Nav/Laws.antt =====
-- The link that the sidebar of the staff portal shows as active.
use the_eye.Base.{◌++◌, ◌≤◌, List, [], ◌∷◌, String, refl, filter, length}
use the_eye.Text.Paths.{length-filter-is_at}
use the_eye.Staff.Nav.{NavItem, NavGroup, groups, is_active}

abbrev all_items : List NavGroup → List NavItem
all_items [] = []
all_items (g ∷ gs) = g.items ++ all_items gs

-- Whatever the path, the sidebar of the staff portal shows at most one of its links as active.
is_active-at_most_one : (p : String) → length (filter (is_active p) (all_items groups)) ≤ 1
unfolding is_active
is_active-at_most_one p = length-filter-is_at (λ i. i.href) p (all_items groups) refl
