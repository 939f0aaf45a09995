-- ===== src/Inode/Zones.antt =====
-- _bmap of fs/inode.c: a zone that is there or is made, and what the file keeps.
use linux_0_1_1_comment.Prelude.{
  ltb, ◌==◌, ◌=/=◌, ==_iff, Bool-cases, update, update_self, update_ne, subst, ℕ, ◌-◌, ◌/◌, ◌%◌,
  ◌≡◌, refl, ap, ◌∙◌, ◌≢◌, ◌⊎◌, inl, inr, true, ℕ_discrete,
}
use linux_0_1_1_comment.Inode.{ok, Fs, FileInode, alloc}
use linux_0_1_1_comment.Inode.Bmap.{set_zone, zone_or_new}
use linux_0_1_1_comment.Inode.Create.{Indexed, entry-Grows, entry-NoneOrUsed}
use linux_0_1_1_comment.Inode.Fresh.{Cleared, Allocated, alloc-Allocated}
use linux_0_1_1_comment.Inode.Grow.{
  NoneOrUsed, Sound, Grows, Grows-refl, NoneOrUsed-Grows, Leaves, Leaves-bind,
}
use linux_0_1_1_comment.Inode.Lookup.{entry, lookup}

pub record ZoneMade (k : ℕ) (inode : FileInode) (fs : Fs) (ino : FileInode) (fs' : Fs)
    : Type 0 where
  pub sound : Sound fs'
  pub grows : Grows fs fs'
  pub kept : (j : ℕ) → inode.i_zone j ≢ 0 → ino.i_zone j ≡ inode.i_zone j
  pub others : (j : ℕ) → j ≢ k → ino.i_zone j ≡ inode.i_zone j
  pub state : ((ino.i_zone k ≡ 0) ⊎ Cleared fs (ino.i_zone k) fs') ⊎ ((ino ≡ inode) × (fs' ≡ fs))

set_zone-i_zone :
    (now k b : ℕ) (inode : FileInode) → (set_zone now k b inode).i_zone ≡ update inode.i_zone k b
set_zone-i_zone now k b inode = elim (Bool-cases (b =/= 0)) [
  | inl e ↦ rw e refl
  | inr e ↦ rw e refl
]

pub zone_or_new-ZoneMade :
    (now k : ℕ) (inode : FileInode) (fs : Fs)
    → Sound fs
    → Leaves (ZoneMade k inode fs) (zone_or_new now true k inode fs)
unfolding zone_or_new
zone_or_new-ZoneMade now k inode fs sound = elim (Bool-cases (inode.i_zone k == 0)) [
  | inr there ↦ rw there (record {
    sound = sound;
    grows = Grows-refl fs;
    kept = λ j ne. refl;
    others = λ j d. refl;
    state = inr (refl, refl);
  })
  | inl none_there ↦ rw none_there (
      Leaves-bind (Allocated fs) (ZoneMade k inode fs) (alloc fs)
        (λ b fs1. ok (set_zone now k b inode) fs1) (alloc-Allocated fs sound)
        (λ b fs1 a. record {
          sound = a.sound;
          grows = a.grows;
          kept = λ j ne.
              ap (λ f. f j) (set_zone-i_zone now k b inode)
              ∙ update_ne inode.i_zone k j b (λ e. ne (rw e ((==_iff _ 0).0 none_there)));
          others =
              λ j d. ap (λ f. f j) (set_zone-i_zone now k b inode) ∙ update_ne inode.i_zone k j b d;
          state = inl (
              rw (ap (λ f. f k) (set_zone-i_zone now k b inode) ∙ update_self inode.i_zone k b)
                a.fresh);
        }))
]

entry-nonzero : (fs : Fs) (b k : ℕ) → entry fs b k ≢ 0 → b ≢ 0
entry-nonzero fs b k ne z = ne (rw z refl)

-- A block of the file that was mapped stays where it is.
pub lookup-Grows :
    (inode ino : FileInode) (fs fs' : Fs) (block : ℕ)
    → Indexed inode fs
    → Grows fs fs'
    → ((j : ℕ) → inode.i_zone j ≢ 0 → ino.i_zone j ≡ inode.i_zone j)
    → lookup inode fs block ≢ 0
    → lookup ino fs' block ≡ lookup inode fs block
lookup-Grows inode ino fs fs' block ix g kept = elim (Bool-cases (ltb block 7)) [
  | inl direct ↦ rw direct (λ ne. kept block ne)
  | inr indirect ↦ rw indirect (elim (Bool-cases (ltb (block - 7) 512)) [
    | inl single ↦ rw single (λ ne.
        rw (kept 7 (entry-nonzero fs (inode.i_zone 7) (block - 7) ne))
          (entry-Grows fs fs' (inode.i_zone 7) (block - 7) g ix.single ne))
    | inr double ↦ rw double (λ ne.
        let first = (block - 7 - 512) / 512 in
        let second = (block - 7 - 512) % 512 in
        let there = entry-nonzero fs (entry fs (inode.i_zone 8) first) second ne in
        rw (kept 8 (entry-nonzero fs (inode.i_zone 8) first there)) (
          rw (entry-Grows fs fs' (inode.i_zone 8) first g ix.double there)
            (entry-Grows fs fs' (entry fs (inode.i_zone 8) first) second g (ix.second first) ne)))
  ])
]

-- A zone that is there, or was made, holds a block in use, if it holds one.
zone-Used :
    (k : ℕ) (inode ino : FileInode) (fs fs1 : Fs)
    → ZoneMade k inode fs ino fs1
    → NoneOrUsed fs (inode.i_zone k)
    → NoneOrUsed fs1 (ino.i_zone k)
zone-Used k inode ino fs fs1 m used = elim m.state [
  | inl fresh ↦ elim fresh [ inl z ↦ inl z | inr c ↦ inr c.now_used ]
  | inr same ↦ rw (same.0, same.1) used
]

cleared-entry : (fs : Fs) (b : ℕ) (fs1 : Fs) (k : ℕ) → Cleared fs b fs1 → entry fs1 b k ≡ 0
cleared-entry fs b fs1 k c = elim (Bool-cases (b == 0)) [
  | inl z ↦ rw z refl
  | inr nz ↦ rw (nz, c.is_readable) (c.all_zero k)
]

pub Indexed-Grows :
    (inode : FileInode) (fs fs' : Fs) → Indexed inode fs → Grows fs fs' → Indexed inode fs'
Indexed-Grows inode fs fs' ix g = record {
  single = NoneOrUsed-Grows fs fs' (inode.i_zone 7) g ix.single;
  double = NoneOrUsed-Grows fs fs' (inode.i_zone 8) g ix.double;
  second = λ k. entry-NoneOrUsed fs fs' (inode.i_zone 8) k g ix.double (ix.second k);
}

module _ (k : ℕ) (inode ino : FileInode) (fs fs1 : Fs) (m : ZoneMade k inode fs ino fs1)
    (ix : Indexed inode fs) where
  zone-NoneOrUsed : (j : ℕ) → NoneOrUsed fs (inode.i_zone j) → NoneOrUsed fs1 (ino.i_zone j)
  zone-NoneOrUsed j used = elim (ℕ_discrete j k) [
    | yes e ↦
        rw e (zone-Used k inode ino fs fs1 m (subst (λ j. NoneOrUsed fs (inode.i_zone j)) e used))
    | no d ↦ rw (m.others j d) (NoneOrUsed-Grows fs fs1 (inode.i_zone j) m.grows used)
  ]

  second_after : (i : ℕ) → NoneOrUsed fs1 (entry fs1 (ino.i_zone 8) i)
  second_after i = elim (ℕ_discrete 8 k) [
    | no d ↦
        rw (m.others 8 d)
          (entry-NoneOrUsed fs fs1 (inode.i_zone 8) i m.grows ix.double (ix.second i))
    | yes e ↦ elim m.state [
      | inl (inl z) ↦ inl (rw (e, z) refl)
      | inl (inr c) ↦ inl (rw e (cleared-entry fs (ino.i_zone k) fs1 i c))
      | inr s ↦ rw (s.0, s.1) (ix.second i)
    ]
  ]

  pub ZoneMade-Indexed : Indexed ino fs1
  ZoneMade-Indexed = record {
    single = zone-NoneOrUsed 7 ix.single;
    double = zone-NoneOrUsed 8 ix.double;
    second = second_after;
  }
