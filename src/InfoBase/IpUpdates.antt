-- ===== src/InfoBase/IpUpdates.antt =====
-- InfoBaseMgr.cpp: what update_ip_data_items() does to a list of IP addresses.
use ll_dlep.Common.{
  ◌≡◌, refl, sym, ◌∙◌, Bool, true, false, ◌||◌, List, [], ◌∷◌, arith, if◌then◌else◌, nat_key,
  string_key, bytes_key, if-elim,
}
use ll_dlep.DataItem.Types.{DataItem}
use ll_dlep.DataItem.Ip.{ip_equal, ip_equal_lem}
use ll_dlep.InfoBase.Destination.{is_adding, update_ip_data_items}

-- Does one of the data items have the IP address information of `ip`?
unfoldable pub contains_ip : DataItem → List DataItem → Bool
contains_ip ip [] = false
contains_ip ip (di ∷ dis) = ip_equal di ip || contains_ip ip dis

-- No two data items have the same IP address information.
unfoldable pub AreDistinct : List DataItem → Type 0
AreDistinct [] = Unit
AreDistinct (di ∷ dis) = (contains_ip di dis ≡ false) × AreDistinct dis

ip_equal_swap : (a b : DataItem) → ip_equal a b ≡ true → ip_equal b a ≡ true
ip_equal_swap a b h = let q = (ip_equal_lem a b).0 h in (ip_equal_lem b a).1 (q.0, q.2, q.1)

pub ip_equal_sym : (a b : DataItem) → ip_equal a b ≡ ip_equal b a
ip_equal_sym a b = ground (arith, ip_equal_swap a b, ip_equal_swap b a)

ip_equal_trans :
    (a b c : DataItem) → ip_equal a b ≡ true → ip_equal b c ≡ true → ip_equal a c ≡ true
ip_equal_trans a b c h k =
    let p = (ip_equal_lem a b).0 h in
    let q = (ip_equal_lem b c).0 k in (ip_equal_lem a c).1 (p.0, p.1, q.2 ∙ sym q.1 ∙ p.2)

ip_equal_congr : (a b x : DataItem) → ip_equal a b ≡ true → ip_equal x a ≡ ip_equal x b
ip_equal_congr a b x h =
    ground (arith, h, ip_equal_swap a b h, ip_equal_trans x a b, ip_equal_trans x b a)

contains_ip_congr :
    (a b : DataItem) (dis : List DataItem)
    → ip_equal a b ≡ true
    → contains_ip a dis ≡ contains_ip b dis
unfolding contains_ip
contains_ip_congr a b [] h = refl
contains_ip_congr a b (di ∷ dis) h = rw (ip_equal_congr a b di h, contains_ip_congr a b dis h)

-- Updating a list without duplicates with the data item `new` changes whether the list has an
-- address only for the address of `new`: the list has it afterwards exactly when the flags of
-- `new` have the bit `add`.
pub contains_ip-update_ip_data_items :
    (x new : DataItem) (dis : List DataItem)
    → AreDistinct dis
    → contains_ip x (update_ip_data_items new dis)
      ≡ (if ip_equal new x then is_adding new else contains_ip x dis)
unfolding contains_ip AreDistinct update_ip_data_items
contains_ip-update_ip_data_items x new [] h =
    if-elim (λ l. contains_ip x l ≡ (if ip_equal new x then is_adding new else false))
      (is_adding new) _ _ (λ p. ground (arith, p)) (λ p. ground (arith, p))
contains_ip-update_ip_data_items x new (di ∷ dis) h =
    if-elim (λ l. contains_ip x l ≡ result) (ip_equal di new) _ _
      (λ p.
        if-elim (λ l. contains_ip x l ≡ result) (is_adding new) _ _
          (λ a. ground (arith, p, a, ip_equal_trans di new x))
          (λ a. ground (
            arith,
            p,
            a,
            h.0,
            ip_equal_trans di new x,
            ip_equal_trans new di x,
            ip_equal_swap di new,
            contains_ip_congr di x dis,
          )))
      (λ p. ground (
        arith,
        p,
        contains_ip-update_ip_data_items x new dis h.1,
        ip_equal_swap new x,
        ip_equal_trans di x new,
      ))
  where
    result : Bool
    result = if ip_equal new x then is_adding new else contains_ip x (di ∷ dis)

-- An update keeps a list without duplicates free of duplicates.
pub update_ip_data_items-AreDistinct :
    (new : DataItem) (dis : List DataItem)
    → AreDistinct dis
    → AreDistinct (update_ip_data_items new dis)
unfolding contains_ip AreDistinct update_ip_data_items
update_ip_data_items-AreDistinct new [] h =
    if-elim AreDistinct (is_adding new) _ _ (λ _. (refl, tt)) (λ _. tt)
update_ip_data_items-AreDistinct new (di ∷ dis) h =
    if-elim AreDistinct (ip_equal di new) _ _
      (λ _. if-elim AreDistinct (is_adding new) _ _ (λ _. h) (λ _. h.1))
      (λ p. (
        contains_ip-update_ip_data_items di new dis h.1 ∙ rw (ip_equal_sym new di, p) (h.0),
        update_ip_data_items-AreDistinct new dis h.1,
      ))
