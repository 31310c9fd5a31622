-- ===== src/Channel/Escalation.antt =====
-- What `Handler<SetUserMode>` of src/channel.rs can change.
use titanirc.Base.{
  ◌≤◌, ◌<◌, ◌≡◌, refl, ◌⊎◌, inl, inr, true, some, arith, Option-cases, Bool-cases, Has,
}
use mathlib.Core.Path.{subst}
use titanirc.HostMask.{HostMask}
use titanirc.HostMaskMap.{get, insert}
use titanirc.HostMaskMap.Globs.{IsRoot, matches, insert-IsRoot, get-insert, get-insert_inv}
use titanirc.Permission.{Permission, half_operator, can_set_permission}
use titanirc.Permission.Laws.{rank, can_set_permission_iff}
use titanirc.Connection.{to_host_mask}
use titanirc.Channel.{Channel, SetUserMode, get_user_permissions}
use titanirc.Channel.Access.{get_user_permissions_most, get_user_permissions_bound}
use titanirc.Channel.Handlers.{new_permission, handle_set_user_mode}

-- What a mode change does to the permissions: nothing, or one insertion of a permission that
-- ranks below the requester's, where the affected mask also ranks below.
abbrev pub Outcome : Channel → SetUserMode → Channel → Type 0
Outcome c msg c' =
    let mine : Permission = get_user_permissions c (to_host_mask msg.requester) in
    let theirs : Permission = get_user_permissions c msg.affected_mask in
    (c' ≡ c)
    ⊎ ((new : Permission) × (new_permission msg theirs ≡ some new)
        × (rank half_operator ≤ rank mine)
        × (rank new < rank mine)
        × (rank theirs < rank mine)
        × (c' ≡ record c { permissions = insert c.permissions msg.affected_mask new }))

pub set_user_mode_outcome :
    (c : Channel) (msg : SetUserMode) → Outcome c msg (handle_set_user_mode c msg).0
unfolding handle_set_user_mode
set_user_mode_outcome c msg =
    let mine : Permission = get_user_permissions c (to_host_mask msg.requester) in
    let theirs : Permission = get_user_permissions c msg.affected_mask in
    elim (Option-cases (new_permission msg theirs)) [
      | inl e ↦ inl (rw (handle_set_user_mode, e))
      | inr (new, e) ↦ elim (Bool-cases (can_set_permission mine new theirs)) [
        | inl yes_ ↦
            let (half, below, above) = (can_set_permission_iff mine new theirs).0 yes_ in
            inr (new, e, half, below, above, rw (handle_set_user_mode, e, yes_))
        | inr refused ↦ inl (rw (handle_set_user_mode, e, refused))
      ]
    ]

-- A mode change leaves a user at most as high as before, or strictly below the requester.
pub set_user_mode_no_escalation :
    (c : Channel) (msg : SetUserMode) (mask : HostMask)
    → IsRoot c.permissions
    → let mine : Permission = get_user_permissions c (to_host_mask msg.requester) in
      let after : Permission = get_user_permissions (handle_set_user_mode c msg).0 mask in
      (rank after ≤ rank (get_user_permissions c mask)) ⊎ (rank after < rank mine)
set_user_mode_no_escalation c msg mask root = elim (set_user_mode_outcome c msg) [
  | inl same ↦ inl (rw same (omega arith))
  | inr (new, e, half, below, above, changed) ↦
      let c' : Channel = (handle_set_user_mode c msg).0 in
      elim ((get_user_permissions_most c' mask).1) [
        | inl (none_match, normal_left) ↦ inr (rw normal_left (omega arith))
        | inr h ↦
            elim (get-insert_inv c.permissions msg.affected_mask mask new
              (get_user_permissions c' mask) root
              (subst (λ (x : Channel). Has (get_user_permissions c' mask) (get x.permissions mask))
                changed h)) [
                  | inl (is_new, m) ↦ inr (rw is_new below)
                  | inr old ↦
                      inl (get_user_permissions_bound c mask (get_user_permissions c' mask) old)
                ]
      ]
]

-- Where the requester may set the permission, every user that the mask matches has it afterwards,
-- or a higher one.
pub set_user_mode_grants :
    (c : Channel) (msg : SetUserMode) (mask : HostMask) (new : Permission)
    → IsRoot c.permissions
    → new_permission msg (get_user_permissions c msg.affected_mask) ≡ some new
    → can_set_permission
        (get_user_permissions c (to_host_mask msg.requester))
        new
        (get_user_permissions c msg.affected_mask)
      ≡ true
    → matches msg.affected_mask mask ≡ true
    → rank new ≤ rank (get_user_permissions (handle_set_user_mode c msg).0 mask)
unfolding handle_set_user_mode
set_user_mode_grants c msg mask new root e allowed m =
    get_user_permissions_bound (handle_set_user_mode c msg).0 mask new (
      rw (handle_set_user_mode, e, allowed)
        (get-insert c.permissions msg.affected_mask mask new root m))

-- A mode change keeps the trie of the permissions in shape, and touches nothing else.
pub set_user_mode_keeps :
    (c : Channel) (msg : SetUserMode)
    → IsRoot c.permissions
    → IsRoot (handle_set_user_mode c msg).0.permissions
      × ((handle_set_user_mode c msg).0.clients ≡ c.clients)
      × ((handle_set_user_mode c msg).0.topic ≡ c.topic)
set_user_mode_keeps c msg root = elim (set_user_mode_outcome c msg) [
  | inl same ↦ rw same (root, refl, refl)
  | inr (new, e, half, below, above, changed) ↦
      rw changed (insert-IsRoot c.permissions msg.affected_mask new root, refl, refl)
]
