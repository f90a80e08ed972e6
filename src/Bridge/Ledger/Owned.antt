-- ===== src/Bridge/Ledger/Owned.antt =====
-- An object that entry/src/main/cpp/vlc_napi.cpp finds through a handle is held.
use vlc_harmony.Base.{ℕ, ◌≤◌, ◌≡◌, refl, ap, none, some, Option, nat_eq, arith}
use vlc_harmony.Base.Table.{lookup, total_found}
use vlc_harmony.Bridge.World.{
  inst, media, player, equalizer, media_list, discoverer, renderer, renderer_discoverer, World,
  inst_of, media_of, player_of, eq_of, list_of, md_of, renderer_of, rd_of, from,
}
use vlc_harmony.Bridge.Ledger.{
  hits_self, owners, player_holds, rd_holds, held, lib_holds, media_holds, eq_holds, list_holds,
  md_holds, renderer_holds,
}

-- Taking an entry's pointer apart.
from_cases :
    {A : Type 0} (o : Option A) (f : A → Option ℕ) {p : ℕ}
    → from o f ≡ some p
    → (a : A) × (o ≡ some a) × (f a ≡ some p)
from_cases none f h = ground arith
from_cases (some a) f h = (a, refl, h)

pub inst_of-owned : (h : ℕ) (w : World) {p : ℕ} → inst_of h w ≡ some p → 1 ≤ owners (inst p) w
unfolding inst_of
inst_of-owned h w {p} found =
    let (e, at, is) = from_cases (lookup h w.libs) (λ e. e.inst) found in
    omega (
      arith,
      total_found (lib_holds (inst p)) h e w.libs at,
      ap (held (inst p) inst) is,
      hits_self (inst p),
    )

pub media_of-owned : (h : ℕ) (w : World) {p : ℕ} → media_of h w ≡ some p → 1 ≤ owners (media p) w
unfolding media_of
media_of-owned h w {p} found =
    let (e, at, is) = from_cases (lookup h w.medias) (λ e. e.media) found in
    omega (
      arith,
      total_found (media_holds (media p)) h e w.medias at,
      ap (held (media p) media) is,
      hits_self (media p),
    )

pub player_of-owned : (h : ℕ) (w : World) {p : ℕ} → player_of h w ≡ some p → 1 ≤ owners (player p) w
unfolding player_of
player_of-owned h w {p} found =
    let (e, at, is) = from_cases (lookup h w.players) (λ e. e.mp) found in
    omega (
      arith,
      total_found (player_holds (player p)) h e w.players at,
      ap (held (player p) player) is,
      hits_self (player p),
    )

pub eq_of-owned : (h : ℕ) (w : World) {p : ℕ} → eq_of h w ≡ some p → 1 ≤ owners (equalizer p) w
unfolding eq_of
eq_of-owned h w {p} found =
    let (e, at, is) = from_cases (lookup h w.eqs) (λ e. e.eq) found in
    omega (
      arith,
      total_found (eq_holds (equalizer p)) h e w.eqs at,
      ap (held (equalizer p) equalizer) is,
      hits_self (equalizer p),
    )

pub list_of-owned : (h : ℕ) (w : World) {p : ℕ} → list_of h w ≡ some p → 1 ≤ owners (media_list p) w
unfolding list_of
list_of-owned h w {p} found =
    let (e, at, is) = from_cases (lookup h w.lists) (λ e. e.list) found in
    omega (
      arith,
      total_found (list_holds (media_list p)) h e w.lists at,
      ap (held (media_list p) media_list) is,
      hits_self (media_list p),
    )

pub md_of-owned : (h : ℕ) (w : World) {p : ℕ} → md_of h w ≡ some p → 1 ≤ owners (discoverer p) w
unfolding md_of
md_of-owned h w {p} found =
    let (e, at, is) = from_cases (lookup h w.mds) (λ e. e.md) found in
    omega (
      arith,
      total_found (md_holds (discoverer p)) h e w.mds at,
      ap (held (discoverer p) discoverer) is,
      hits_self (discoverer p),
    )

pub renderer_of-owned :
    (h : ℕ) (w : World) {p : ℕ} → renderer_of h w ≡ some p → 1 ≤ owners (renderer p) w
unfolding renderer_of
renderer_of-owned h w {p} found =
    let (e, at, is) = from_cases (lookup h w.renderers) (λ e. e.item) found in
    omega (
      arith,
      total_found (renderer_holds (renderer p)) h e w.renderers at,
      ap (held (renderer p) renderer) is,
      hits_self (renderer p),
    )

pub rd_of-owned :
    (h : ℕ) (w : World) {p : ℕ} → rd_of h w ≡ some p → 1 ≤ owners (renderer_discoverer p) w
unfolding rd_of
rd_of-owned h w {p} found =
    let (e, at, is) = from_cases (lookup h w.rds) (λ e. e.rd) found in
    omega (
      arith,
      total_found (rd_holds (renderer_discoverer p)) h e w.rds at,
      ap (held (renderer_discoverer p) renderer_discoverer) is,
      hits_self (renderer_discoverer p),
    )
