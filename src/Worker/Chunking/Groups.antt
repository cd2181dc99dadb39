-- ===== src/Worker/Chunking/Groups.antt =====
-- The heading groups: no segment is lost or moved, and a group has one heading.
use serviq.Common.{
  ◌≡◌, refl, ap, ◌∙◌, String, ◌⊎◌, inl, inr, true, List, [], ◌∷◌, ◌++◌, append_assoc, Bool-cases,
  eq_iff, All, All-append_row,
}
use serviq.Worker.Chunking.{
  Segment, HeadingGroup, same_path, is_empty, group_from, groups_after, heading_groups,
}

abbrev pub all_segments : List HeadingGroup → List Segment
all_segments [] = []
all_segments (g ∷ gs) = g.segments ++ all_segments gs

all-group_from :
    (path : List String) (current ss : List Segment)
    → all_segments (group_from path current ss) ≡ current ++ ss
unfolding group_from
all-group_from path current [] = refl
all-group_from path current (s ∷ ss) = elim (Bool-cases (same_path s.heading_path path)) [
  | inl same ↦
      rw (same, all_segments)
        (all-group_from path (current ++ s ∷ []) ss ∙ append_assoc current (s ∷ []) ss)
  | inr other ↦
      rw (other, all_segments) (ap (◌++◌ current) (all-group_from s.heading_path (s ∷ []) ss))
]

all-groups_after : (lead ss : List Segment) → all_segments (groups_after lead ss) ≡ lead ++ ss
unfolding groups_after
all-groups_after lead [] = refl
all-groups_after lead (s ∷ ss) = elim (Bool-cases (is_empty s.heading_path)) [
  | inl plain ↦
      rw (plain, all_segments)
        (all-groups_after (lead ++ s ∷ []) ss ∙ append_assoc lead (s ∷ []) ss)
  | inr headed ↦
      rw (headed, all_segments)
        (all-group_from s.heading_path (lead ++ s ∷ []) ss ∙ append_assoc lead (s ∷ []) ss)
]

-- The groups, one after the other, hold exactly the given segments in their order.
all-heading_groups : (ss : List Segment) → all_segments (heading_groups ss) ≡ ss
all-heading_groups ss = all-groups_after [] ss

-- A segment of a group has the group's heading, or none at all.
abbrev pub Belongs : List String → Segment → Type 0
Belongs path s = (same_path s.heading_path path ≡ true) ⊎ (is_empty s.heading_path ≡ true)

abbrev pub IsHeaded : HeadingGroup → Type 0
IsHeaded g = All (Belongs g.heading_path) g.segments

same_path_refl : (xs : List String) → same_path xs xs ≡ true
same_path_refl [] = refl
same_path_refl (x ∷ xs) = rw ((eq_iff x x).1 refl, same_path_refl xs) refl

group_from-IsHeaded :
    (path : List String) (current ss : List Segment)
    → All (Belongs path) current
    → All IsHeaded (group_from path current ss)
unfolding group_from
group_from-IsHeaded path current [] h = (h, tt)
group_from-IsHeaded path current (s ∷ ss) h = elim (Bool-cases (same_path s.heading_path path)) [
  | inl same ↦
      rw (same, All)
        (group_from-IsHeaded path (current ++ s ∷ []) ss
          (All-append_row (Belongs path) current s h (inl same)))
  | inr other ↦
      rw (other, All)
        (
          h,
          group_from-IsHeaded s.heading_path (s ∷ []) ss (inl (same_path_refl s.heading_path), tt),
        )
]

All-Belongs :
    (path : List String) (lead : List Segment)
    → All (λ s. is_empty s.heading_path ≡ true) lead
    → All (Belongs path) lead
All-Belongs path [] h = tt
All-Belongs path (s ∷ ss) h = (inr h.0, All-Belongs path ss h.1)

abbrev IsPlain : Segment → Type 0
IsPlain s = is_empty s.heading_path ≡ true

groups_after-IsHeaded :
    (lead ss : List Segment) → All IsPlain lead → All IsHeaded (groups_after lead ss)
unfolding groups_after
groups_after-IsHeaded lead [] h = (All-Belongs [] lead h, tt)
groups_after-IsHeaded lead (s ∷ ss) h = elim (Bool-cases (is_empty s.heading_path)) [
  | inl plain ↦
      rw (plain, All)
        (groups_after-IsHeaded (lead ++ s ∷ []) ss (All-append_row IsPlain lead s h plain))
  | inr headed ↦
      rw (headed, All)
        (group_from-IsHeaded s.heading_path (lead ++ s ∷ []) ss (
          All-append_row (Belongs s.heading_path) lead s (All-Belongs s.heading_path lead h)
            (inl (same_path_refl s.heading_path))))
]

-- Every segment of a heading group has the group's own heading path, or none.
heading_groups-IsHeaded : (ss : List Segment) → All IsHeaded (heading_groups ss)
heading_groups-IsHeaded ss = groups_after-IsHeaded [] ss tt

-- The heading groups, one after the other, hold exactly the given segments in their order, and
-- every segment of a group has the heading path of the group, or none.
pub heading_groups_lem :
    (ss : List Segment) → (all_segments (heading_groups ss) ≡ ss) × All IsHeaded (heading_groups ss)
heading_groups_lem ss = (all-heading_groups ss, heading_groups-IsHeaded ss)
