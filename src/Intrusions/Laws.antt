-- ===== src/Intrusions/Laws.antt =====
-- The dots of the map stand for every located attempt once, and the level of the threat rises.
use the_eye.Base.{
  ℕ, suc, ◌+◌, ◌≤◌, Bool, ◌&&◌, Option, none, some, is_some, List, [], ◌∷◌, String, ◌==◌, ◌≡◌, refl,
  arith, filter, length, length-append, Bool-cases, inl, inr, if◌then◌else◌, All,
}
use the_eye.Base.Dict.{Dict, lookup, insert}
use the_eye.Api.Oversight.{IntrusionAttempt}
use the_eye.Intrusions.{
  ThreatLevel, clear, low, medium, high, critical, threat_level, Cluster, grow, add_at, add_all,
  clusters,
}

abbrev rank : ThreatLevel → ℕ
rank clear = 0
rank low = 1
rank medium = 2
rank high = 3
rank critical = 4

-- More attempts never make a lower level, and none at all is the one case that is clear.
threat_level_lem :
    (m n : ℕ)
    → m ≤ n
    → (rank (threat_level m) ≤ rank (threat_level n)) × ((threat_level n ≡ clear) → n ≡ 0)
unfolding threat_level
threat_level_lem m n h = (ground (arith, h), λ e. ground (arith, e))

module _ {F : Type 0} where
  abbrev pub is_located : IntrusionAttempt F → Bool
  is_located a = is_some a.latitude && is_some a.longitude

  abbrev pub IsCounted : Cluster F → Type 0
  IsCounted c = c.count ≡ length c.attempts

  abbrev pub total : Dict (Cluster F) → ℕ
  total [] = 0
  total ((k, c) ∷ dots) = c.count + total dots

  abbrev before : Option (Cluster F) → ℕ
  before none = 0
  before (some c) = c.count

  total-insert :
      (k : String) (c : Cluster F) (dots : Dict (Cluster F))
      → total (insert k c dots) + before (lookup k dots) ≡ total dots + c.count
  unfolding insert lookup
  total-insert k c [] = omega arith
  total-insert k c ((j, d) ∷ dots) = elim (Bool-cases (j == k)) [
    | inl e ↦ rw e (omega arith)
    | inr e ↦ rw e (omega (arith, total-insert k c dots))
  ]

  grow_count :
      (lat lon : F) (a : IntrusionAttempt F) (o : Option (Cluster F))
      → (grow lat lon a o).count ≡ suc (before o)
  unfolding grow
  grow_count lat lon a none = refl
  grow_count lat lon a (some c) = refl

  abbrev attempts_of : Option (Cluster F) → List (IntrusionAttempt F)
  attempts_of none = []
  attempts_of (some c) = c.attempts

  grow-IsCounted :
      (lat lon : F) (a : IntrusionAttempt F) (o : Option (Cluster F))
      → before o ≡ length (attempts_of o)
      → IsCounted (grow lat lon a o)
  unfolding grow
  grow-IsCounted lat lon a none h = omega arith
  grow-IsCounted lat lon a (some c) h = omega (arith, h, length-append c.attempts (a ∷ []))

  module _ (key : F → F → String) where
    total-add_at :
        (la lo : Option F) (a : IntrusionAttempt F) (dots : Dict (Cluster F))
        → total (add_at key la lo a dots) ≡ total dots + (if is_some la && is_some lo then 1 else 0)
    unfolding add_at
    total-add_at (some lat) (some lon) a dots =
        let k = key lat lon in
        omega (
          arith,
          total-insert k (grow lat lon a (lookup k dots)) dots,
          grow_count lat lon a (lookup k dots),
        )
    total-add_at (some lat) none a dots = omega arith
    total-add_at none lo a dots = omega arith

    total-add_all :
        (xs : List (IntrusionAttempt F)) (dots : Dict (Cluster F))
        → total (add_all key xs dots) ≡ total dots + length (filter is_located xs)
    unfolding add_all
    total-add_all [] dots = omega arith
    total-add_all (a ∷ xs) dots = ground (
      arith,
      total-add_all xs (add_at key a.latitude a.longitude a dots),
      total-add_at a.latitude a.longitude a dots,
    )

    before-IsCounted :
        (k : String) (dots : Dict (Cluster F))
        → All (λ d. IsCounted d.1) dots
        → before (lookup k dots) ≡ length (attempts_of (lookup k dots))
    unfolding lookup
    before-IsCounted k [] h = refl
    before-IsCounted k ((j, c) ∷ dots) h = elim (Bool-cases (j == k)) [
      | inl e ↦ rw e h.0
      | inr e ↦ rw e (before-IsCounted k dots h.1)
    ]

    insert-IsCounted :
        (k : String) (c : Cluster F) (dots : Dict (Cluster F))
        → IsCounted c
        → All (λ d. IsCounted d.1) dots
        → All (λ d. IsCounted d.1) (insert k c dots)
    unfolding insert
    insert-IsCounted k c [] n h = (n, tt)
    insert-IsCounted k c ((j, d) ∷ dots) n h = elim (Bool-cases (j == k)) [
      | inl e ↦ rw e (n, h.1)
      | inr e ↦ rw e (h.0, insert-IsCounted k c dots n h.1)
    ]

    add_at-IsCounted :
        (la lo : Option F) (a : IntrusionAttempt F) (dots : Dict (Cluster F))
        → All (λ d. IsCounted d.1) dots
        → All (λ d. IsCounted d.1) (add_at key la lo a dots)
    unfolding add_at
    add_at-IsCounted (some lat) (some lon) a dots h =
        let k = key lat lon in
        insert-IsCounted k (grow lat lon a (lookup k dots)) dots
          (grow-IsCounted lat lon a (lookup k dots) (before-IsCounted k dots h)) h
    add_at-IsCounted (some lat) none a dots h = h
    add_at-IsCounted none lo a dots h = h

    add_all-IsCounted :
        (xs : List (IntrusionAttempt F)) (dots : Dict (Cluster F))
        → All (λ d. IsCounted d.1) dots
        → All (λ d. IsCounted d.1) (add_all key xs dots)
    unfolding add_all
    add_all-IsCounted [] dots h = h
    add_all-IsCounted (a ∷ xs) dots h =
        add_all-IsCounted xs (add_at key a.latitude a.longitude a dots)
          (add_at-IsCounted a.latitude a.longitude a dots h)

    -- Whatever key the coordinates are given, the counts of the dots add up to the number of
    -- attempts that are located, and the count of each dot is the number of its attempts.
    pub clusters_total :
        (xs : List (IntrusionAttempt F))
        → (total (clusters key xs) ≡ length (filter is_located xs))
          × All (λ d. IsCounted d.1) (clusters key xs)
    unfolding clusters
    clusters_total xs = (ground (arith, total-add_all xs []), add_all-IsCounted xs [] tt)
