-- ===== src/Inode/Grow.antt =====
-- What new_block and new index entries leave of a file system: blocks in use stay so, with their
-- contents, but for entries that were 0.
use linux_0_1_1_comment.Prelude.{
  update, update_ne, ℕ, ◌+◌, ◌-◌, ◌≤◌, ◌≡◌, refl, sym, ap, ◌∙◌, ◌≢◌, ◌⊎◌, inl, inr, true, false,
  ℕ_discrete,
}
use linux_0_1_1_comment.Bitmap.Marks.{in_use}
use linux_0_1_1_comment.Inode.{Run, ok, panicked, ◌>>=◌, Fs, word_at, hold, release}

-- Block `c` is marked in the zone map. Blocks before the data zone count as bit 0.
abbrev pub Used : Fs → ℕ → Type 0
Used fs c = in_use fs.super.zmap (c - (fs.super.firstdatazone - 1)) ≡ true

abbrev pub NoneOrUsed : Fs → ℕ → Type 0
NoneOrUsed fs c = (c ≡ 0) ⊎ Used fs c

pub record Sound (fs : Fs) : Type 0 where
  pub positive : 1 ≤ fs.super.firstdatazone
  pub reserved : in_use fs.super.zmap 0 ≡ true
  pub small : fs.super.nzones ≤ 65536
  pub idle :
      (c : ℕ)
      → in_use fs.super.zmap (c - (fs.super.firstdatazone - 1)) ≡ false
      → fs.super.users c ≡ 0

-- bread and brelse of a block in use.
held-Sound :
    (b n : ℕ) (fs : Fs) (d : ℕ → ℕ → ℕ)
    → Used fs b
    → Sound fs
    → Sound
        (record fs { super = record fs.super { users = update fs.super.users b n }; b_data = d })
held-Sound b n fs d u sound = record {
  positive = sound.positive;
  reserved = sound.reserved;
  small = sound.small;
  idle = λ c f.
      update_ne fs.super.users b c n
        (λ e. cc (u, f, ap (λ c. in_use fs.super.zmap (c - (fs.super.firstdatazone - 1))) e))
      ∙ sound.idle c f;
}

pub hold-Sound : (b : ℕ) (fs : Fs) → Used fs b → Sound fs → Sound (hold b fs)
hold-Sound b fs = held-Sound b (fs.super.users b + 1) fs fs.b_data

pub release-Sound :
    (b : ℕ) (fs : Fs) (d : ℕ → ℕ → ℕ)
    → Used fs b
    → Sound fs
    → Sound (release b (record fs { b_data = d }))
release-Sound b fs d = held-Sound b (fs.super.users b - 1) fs d

pub record Grows (fs fs' : Fs) : Type 0 where
  pub still_used : (c : ℕ) → Used fs c → Used fs' c
  pub entries :
      (c k : ℕ)
      → Used fs c
      → word_at (fs.b_data c) k ≢ 0
      → word_at (fs'.b_data c) k ≡ word_at (fs.b_data c) k
  pub new_entries :
      (c k : ℕ)
      → Used fs c
      → word_at (fs.b_data c) k ≡ 0
      → NoneOrUsed fs' (word_at (fs'.b_data c) k)
  pub same_readable : (c : ℕ) → Used fs c → fs'.readable c ≡ fs.readable c

pub Grows-refl : (fs : Fs) → Grows fs fs
Grows-refl fs = record {
  still_used = λ c u. u;
  entries = λ c k u ne. refl;
  new_entries = λ c k u z. inl z;
  same_readable = λ c u. refl;
}

pub NoneOrUsed-Grows : (fs fs' : Fs) (b : ℕ) → Grows fs fs' → NoneOrUsed fs b → NoneOrUsed fs' b
NoneOrUsed-Grows fs fs' b g (inl z) = inl z
NoneOrUsed-Grows fs fs' b g (inr u) = inr (g.still_used b u)

-- An index entry that is 0 or names a block in use goes on to do so.
pub next_entry :
    (fs fs' : Fs) (c k : ℕ)
    → Grows fs fs'
    → Used fs c
    → NoneOrUsed fs (word_at (fs.b_data c) k)
    → NoneOrUsed fs' (word_at (fs'.b_data c) k)
next_entry fs fs' c k g u (inl z) = g.new_entries c k u z
next_entry fs fs' c k g u (inr v) = elim (ℕ_discrete (word_at (fs.b_data c) k) 0) [
  | yes z ↦ g.new_entries c k u z
  | no ne ↦ rw (g.entries c k u ne) (inr (g.still_used (word_at (fs.b_data c) k) v))
]

pub Grows-trans : (fs fs1 fs2 : Fs) → Grows fs fs1 → Grows fs1 fs2 → Grows fs fs2
Grows-trans fs fs1 fs2 g h = record {
  still_used = λ c u. h.still_used c (g.still_used c u);
  entries = λ c k u ne.
      let e = g.entries c k u ne in h.entries c k (g.still_used c u) (λ z. ne (sym e ∙ z)) ∙ e;
  new_entries = λ c k u z. next_entry fs1 fs2 c k h (g.still_used c u) (g.new_entries c k u z);
  same_readable = λ c u. h.same_readable c (g.still_used c u) ∙ g.same_readable c u;
}

-- A routine does not panic, and what it returns has the property.
abbrev pub Leaves {ℓ} : {A : Type ℓ} → (A → Fs → Type 0) → Run A → Type 0
Leaves P (ok a fs) = P a fs
Leaves P panicked = ⊥

pub Leaves-map {ℓ} :
    {A : Type ℓ} (P Q : A → Fs → Type 0) (r : Run A)
    → Leaves P r
    → ((a : A) (fs : Fs) → P a fs → Q a fs)
    → Leaves Q r
Leaves-map P Q (ok a fs) h next = next a fs h
Leaves-map P Q panicked h next = h

pub Leaves-bind {ℓ κ} :
    {A : Type ℓ} {B : Type κ} (P : A → Fs → Type 0) (Q : B → Fs → Type 0) (r : Run A)
    (f : A → Fs → Run B)
    → Leaves P r
    → ((a : A) (fs : Fs) → P a fs → Leaves Q (f a fs))
    → Leaves Q (r >>= f)
Leaves-bind P Q (ok a fs) f h next = next a fs h
Leaves-bind P Q panicked f h next = h
