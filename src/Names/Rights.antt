-- ===== src/Names/Rights.antt =====
-- permission of fs/namei.c, bit by bit.
-- The three bits of the mode that apply: of the owner, of the group, of the others, or all for root.
use linux_0_1_1_comment.Prelude.{
  ◌==◌, ◌=/=◌, if◌then◌else◌, Bool-cases, ℕ, ◌/◌, ◌%◌, ◌≡◌, refl, inl, inr, Bool, not, ◌&&◌, ◌||◌,
  arith,
}
use linux_0_1_1_comment.Names.{Node, and_bits, permission}
use linux_0_1_1_comment.Sched.{Task}

abbrev pub granted : Task → Node → ℕ → Bool
granted t inode bit =
    (t.uid == 0)
    || (t.euid == 0)
    || (if (t.uid == inode.i_uid) || (t.euid == inode.i_uid)
        then inode.i_mode / 64 / bit % 2 == 1
        else if (t.gid == inode.i_gid) || (t.egid == inode.i_gid)
        then inode.i_mode / 8 / bit % 2 == 1
        else inode.i_mode / bit % 2 == 1)

abbrev pub asked : ℕ → ℕ → Bool
asked mask bit = mask / bit % 2 == 1

and_bits-any :
    (m k : ℕ)
    → (and_bits 3 m k =/= 0)
      ≡ ((asked k 1 && asked m 1) || (asked k 2 && asked m 2) || (asked k 4 && asked m 4))
unfolding and_bits
and_bits-any m k =
    let h4 : m / 4 ≡ m / 2 / 2 = omega arith in
    let k4 : k / 4 ≡ k / 2 / 2 = omega arith in ground arith

-- permission is not 0 exactly when the file is not a deleted one on a device, and at least one of
-- the rights in the mask is granted to the task: by the bits of the owner, of the group or of the
-- others, or because its user or its effective user is 0.
pub permission-granted :
    (t : Task) (inode : Node) (mask : ℕ)
    → (permission t inode mask =/= 0) ≡ (
        not ((inode.i_dev =/= 0) && (inode.i_nlinks == 0))
        && ((asked mask 1 && granted t inode 1)
            || (asked mask 2 && granted t inode 2)
            || (asked mask 4 && granted t inode 4)))
unfolding permission and_bits
permission-granted t inode mask =
    let root : not ((t.uid =/= 0) && (t.euid =/= 0)) ≡ ((t.uid == 0) || (t.euid == 0)) =
      ground arith in
    elim (Bool-cases ((inode.i_dev =/= 0) && (inode.i_nlinks == 0))) [
      | inl e ↦ rw e refl
      | inr e ↦
          rw (e, root)
            (elim (Bool-cases ((t.uid == 0) || (t.euid == 0))) [
              | inl r ↦ rw r (and_bits-any 511 mask)
              | inr r ↦
                  rw r (elim (Bool-cases ((t.uid == inode.i_uid) || (t.euid == inode.i_uid))) [
                    | inl o ↦ rw o (and_bits-any (inode.i_mode / 64) mask)
                    | inr o ↦
                        rw o
                          (elim (Bool-cases ((t.gid == inode.i_gid) || (t.egid == inode.i_gid))) [
                            | inl g ↦ rw g (and_bits-any (inode.i_mode / 8) mask)
                            | inr g ↦ rw g (and_bits-any inode.i_mode mask)
                          ])
                  ])
            ])
    ]
