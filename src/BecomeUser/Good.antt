-- ===== src/BecomeUser/Good.antt =====
-- The caches that a request meets while the user's entry is in its time, and what the calls about
-- the user answer there.
use tsi.Base.{◌≡◌, subst, ◌∙◌, Bool, true}
use tsi.Base.{List, arith, if◌then◌else◌, ◌==◌, contains, text_eq, int_eq}
use tsi.Base.Int.{ℤ}
use tsi.Base.Exec.{Result, ok, err, Exec, continue, ◌>>=◌}
use tsi.Base.Text.{Text}
use tsi.UserCache.{
  UserCache, Os, get, get_gid_4group, get_gid_4user, get_gids_4user, id_or_minus_one, gids_or_empty,
}
use tsi.UserCache.Entries.{SameUser, SameUser-trans}
use tsi.UserCache.Fresh.{
  Fresh, gid_4user-fresh, gids_4user-fresh, gid_4group-Fresh, gid_4group-SameUser,
}
use tsi.BecomeUser.{Config, check_membership}

module _ (os : Os) (user : Text) (start : UserCache) where
  -- The caches that the loop meets: the user's entry is that of the start, and in its time.
  pub record Good (c : UserCache) : Type 0 where
    pub fresh : Fresh os user c
    pub same : SameUser user start c

  abbrev pub own_gid : ℤ
  own_gid = id_or_minus_one (get user start.gids)

  abbrev pub own_gids : List ℤ
  own_gids = gids_or_empty (get user start.all_groups)

  -- A run from a good cache: `Q` of a result, `E` for an error, and a good cache after a result.
  abbrev pub Post {ℓ} : {A : Type ℓ} → Type 0 → (A → Type 0) → Result A × UserCache → Type 0
  Post E Q (ok a, c) = Good c × Q a
  Post E Q (err e, c) = E

  pub Post-bind {ℓ κ} :
      {A : Type ℓ} {B : Type κ} (E : Type 0) (Q : A → Type 0) (R : B → Type 0)
      (m : Exec UserCache A) (f : A → Exec UserCache B) (c : UserCache)
      → Post E Q (m c)
      → ((a : A) (d : UserCache) → Good d → Q a → Post E R (f a d))
      → Post E R ((m >>= f) c)
  Post-bind {A} {B} E Q R m f c p k = go (m c) p
    where
      go : (r : Result A × UserCache) → Post E Q r → Post E R (continue r.0 f r.1)
      go (ok a, d) p = k a d p.0 p.1
      go (err e, d) p = p

  pub Post-ok {ℓ} :
      {A : Type ℓ} (E : Type 0) (Q : A → Type 0) (r : Result A × UserCache) (a : A)
      → r.0 ≡ ok a
      → Good r.1
      → Q a
      → Post E Q r
  Post-ok E Q (ok b, d) a e g q = (g, subst Q (cc) q)
  Post-ok E Q (err x, d) a e g q = absurd (cc)

  pub gid_4group-Good : (g : Text) (c : UserCache) → Good c → Good (get_gid_4group os g c).1
  gid_4group-Good g c good = record {
    fresh = gid_4group-Fresh good.fresh g;
    same = SameUser-trans good.same (gid_4group-SameUser os g user c);
  }

  pub gid_4user-Good : (c : UserCache) → Good c → get_gid_4user os user c ≡ (ok own_gid, c)
  gid_4user-Good c good = gid_4user-fresh good.fresh ∙ rw good.same.gid

  pub gids_4user-Good : (c : UserCache) → Good c → get_gids_4user os user c ≡ (ok own_gids, c)
  gids_4user-Good c good = gids_4user-fresh good.fresh ∙ rw good.same.gids

  -- What the membership test answers.
  unfoldable pub is_member : Config → ℤ → Bool
  is_member config g =
      if config.enforce_os_gids then (if g == own_gid then true else contains own_gids g) else true

  pub check_membership-Good :
      (config : Config) (g : ℤ) (c : UserCache)
      → Good c
      → check_membership os config g user c ≡ (ok (is_member config g), c)
  unfolding check_membership is_member
  check_membership-Good config g c good =
      ground (arith, gid_4user-Good c good, gids_4user-Good c good)
