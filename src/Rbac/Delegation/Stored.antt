-- ===== src/Rbac/Delegation/Stored.antt =====
-- Which rows a replacement of roles leaves.
use rustdesk_console.Common.{
  ℕ, suc, String, ◌≡◌, refl, sym, ap, ◌∙◌, subst, Bool, true, false, not, ◌&&◌, ◌||◌, List, [], ◌∷◌,
  ◌++◌, map, ◌==◌, string_eq, if◌then◌else◌, any, includes, arith, any_ext, any-append,
}
use rustdesk_console.Common.Effects.{ok}
use rustdesk_console.Rbac.Database.{Assignment, AssignmentGroup}
use rustdesk_console.Rbac.Authorization.{is_nil, is_group}
use rustdesk_console.Rbac.Roles.{
  UserRoleAssignmentDto, NormalizedAssignment, validate_assignments, LoadedAssignment, Scopes,
}
use rustdesk_console.Rbac.Delegation.Replacement.{
  RoleStore, IsRoleStore, RoleService, stored_assignment, stored_groups, save_all, write_roles,
  replace_user_roles,
}
use rustdesk_console.Rbac.Delegation.Passed.{replace_user_roles-ok}

module _ {D : Type 0} (store : RoleStore D) where
  module _ (uuid : ℕ → String) where
    -- The rows that are written for the requests.
    abbrev pub written : String → ℕ → List NormalizedAssignment → List Assignment
    written user n [] = []
    written user n (a ∷ as') = stored_assignment store (uuid n) user a ∷ written user (suc n) as'

    abbrev pub written_groups : ℕ → List NormalizedAssignment → List AssignmentGroup
    written_groups n [] = []
    written_groups n (a ∷ as') =
        (if is_group a.scope_type then stored_groups store (uuid n) a else [])
        ++ written_groups (suc n) as'

    module _ (laws : IsRoleStore store) where
      abbrev some_assignment : D → String → (Assignment → Bool) → Bool
      some_assignment d u q = any q ((store.rbac d).find_assignments (u ∷ []))

      abbrev some_group : D → List String → (AssignmentGroup → Bool) → Bool
      some_group d keys q = any q ((store.rbac d).find_assignment_groups keys)

      grouped-assignments :
          (b : Bool) (gs : List AssignmentGroup) (d : D) (u : String) (q : Assignment → Bool)
          → some_assignment (if b then store.insert_assignment_groups gs d else d) u q
            ≡ some_assignment d u q
      grouped-assignments true gs d u q = ap (any q) (laws.assignments-grouped gs d u)
      grouped-assignments false gs d u q = refl

      grouped-groups :
          (b : Bool) (gs : List AssignmentGroup) (d : D) (keys : List String)
          (q : AssignmentGroup → Bool)
          → some_group (if b then store.insert_assignment_groups gs d else d) keys q ≡ (
              any (λ g. includes keys g.assignment_guid && q g) (if b then gs else [])
              || some_group d keys q)
      grouped-groups true gs d keys q = laws.groups-grouped gs d keys q
      grouped-groups false gs d keys q = refl

      save_all-assignments :
          (user : String) (n : ℕ) (requested : List NormalizedAssignment) (d : D) (u : String)
          (q : Assignment → Bool)
          → some_assignment (save_all store uuid user n requested d) u q
            ≡ (((user == u) && any q (written user n requested)) || some_assignment d u q)
      unfolding save_all
      save_all-assignments user n [] d u q = ground arith
      save_all-assignments user n (a ∷ as') d u q =
          let saved = store.save_assignment (stored_assignment store (uuid n) user a) d in
          let gs = stored_groups store (uuid n) a in
          ground (
            arith,
            save_all-assignments user (suc n) as'
                (if is_group a.scope_type then store.insert_assignment_groups gs saved else saved) u
                q,
            grouped-assignments (is_group a.scope_type) gs saved u q,
            laws.assignments-saved (stored_assignment store (uuid n) user a) d u q,
          )

      save_all-groups :
          (user : String) (n : ℕ) (requested : List NormalizedAssignment) (d : D)
          (keys : List String) (q : AssignmentGroup → Bool)
          → some_group (save_all store uuid user n requested d) keys q ≡ (
              any (λ g. includes keys g.assignment_guid && q g) (written_groups n requested)
              || some_group d keys q)
      unfolding save_all
      save_all-groups user n [] d keys q = refl
      save_all-groups user n (a ∷ as') d keys q =
          let saved = store.save_assignment (stored_assignment store (uuid n) user a) d in
          let gs = stored_groups store (uuid n) a in
          let asked : AssignmentGroup → Bool = λ g. includes keys g.assignment_guid && q g in
          ground (
            arith,
            save_all-groups user (suc n) as'
                (if is_group a.scope_type then store.insert_assignment_groups gs saved else saved)
                keys q,
            grouped-groups (is_group a.scope_type) gs saved keys q,
            any-append asked (if is_group a.scope_type then gs else [])
                (written_groups (suc n) as'),
            ap (any q) (laws.groups-saved (stored_assignment store (uuid n) user a) d keys),
          )

      abbrev ungrouped : List Assignment → D → D
      ungrouped current d =
          if is_nil current then d else store.delete_assignment_groups (map (λ a. a.guid) current) d

      ungrouped-assignments :
          (current : List Assignment) (d : D) (u : String) (q : Assignment → Bool)
          → some_assignment (ungrouped current d) u q ≡ some_assignment d u q
      ungrouped-assignments [] d u q = refl
      ungrouped-assignments (a ∷ as') d u q =
          ap (any q) (laws.assignments-ungrouped (map (λ a. a.guid) (a ∷ as')) d u)

      ungrouped-groups :
          (current : List Assignment) (d : D) (keys : List String) (q : AssignmentGroup → Bool)
          → some_group (ungrouped current d) keys q
            ≡ some_group d keys
                (λ g. not (includes (map (λ a. a.guid) current) g.assignment_guid) && q g)
      ungrouped-groups [] d keys q =
          any_ext q (λ g. q g) ((store.rbac d).find_assignment_groups keys) (λ g. refl)
      ungrouped-groups (a ∷ as') d keys q =
          laws.groups-ungrouped (map (λ a. a.guid) (a ∷ as')) d keys q

      -- Which rows there are after a replacement: the user's are those written, other users' are as
      -- before; the groups are those written, and those that belonged to none of the user's rows.
      pub record IsReplaced (user : String) (requested : List NormalizedAssignment) (d d' : D)
          : Type 0 where
        pub assignments :
            (u : String) (q : Assignment → Bool)
            → some_assignment d' u q
              ≡ (if user == u then any q (written user 0 requested) else some_assignment d u q)
        pub groups :
            (keys : List String) (q : AssignmentGroup → Bool)
            → some_group d' keys q ≡ (
                any (λ g. includes keys g.assignment_guid && q g) (written_groups 0 requested)
                || some_group d keys (λ g.
                  not (
                    includes
                      (map (λ a. a.guid) ((store.rbac d).find_assignments (user ∷ [])))
                      g.assignment_guid)
                  && q g))

      write_roles-IsReplaced :
          (user : String) (requested : List NormalizedAssignment) (actor : String) (d : D)
          → IsReplaced user requested d (write_roles store uuid user requested actor d)
      unfolding write_roles
      write_roles-IsReplaced user requested actor d =
          let current = (store.rbac d).find_assignments (user ∷ []) in
          let cleared = ungrouped current d in
          let emptied = store.delete_assignments user cleared in
          record {
            assignments = λ u q.
                ap (any q)
                  (laws.assignments-recorded _ (save_all store uuid user 0 requested emptied) u)
                ∙ ground (
                  arith,
                  save_all-assignments user 0 requested emptied u q,
                  laws.assignments-deleted user cleared u q,
                  ungrouped-assignments current d u q,
                );
            groups = λ keys q.
                ap (any q)
                  (laws.groups-recorded _ (save_all store uuid user 0 requested emptied) keys)
                ∙ ground (
                  arith,
                  save_all-groups user 0 requested emptied keys q,
                  ap (any q) (laws.groups-deleted user cleared keys),
                  ungrouped-groups current d keys q,
                );
          }

      -- If a replacement of a user's roles returns, the requests were valid, and afterwards a test
      -- holds of some assignment of the user exactly if it holds of one that was requested, of some
      -- assignment of another user exactly if it did before, and of some group of an assignment
      -- exactly if it holds of a group that was requested, or of one that was there before and did
      -- not belong to an assignment that the user had.
      pub replace_user_roles-IsReplaced :
          (user : String) (dtos : List UserRoleAssignmentDto) (actor : String)
          (r : List LoadedAssignment × Scopes) (w v : RoleService D)
          → replace_user_roles store uuid user dtos actor w ≡ (ok r, v)
          → (requested : List NormalizedAssignment) × (validate_assignments dtos ≡ ok requested)
            × IsReplaced user requested w.rows v.rows
      replace_user_roles-IsReplaced user dtos actor r w v h =
          let (requested, valid, _, _, _, rows) =
            replace_user_roles-ok store uuid user dtos actor r w v h in
          (
            requested,
            valid,
            subst (IsReplaced user requested w.rows) (sym rows)
                (write_roles-IsReplaced user requested actor w.rows),
          )
