-- ===== src/Manager/Display/Prime.antt =====
-- The GPU that the X server or DRI_PRIME names (manager/kmre/wm/gpuinfo.cpp: drm_construct_id_path_tag to
-- get_gpu_pci_info). What libdrm, XCB and the kernel answer is an argument, and so are the numbers that
-- asprintf prints; it does not run out of memory.
use kylin_kmre_manager.Base.{
  ℕ, Bool, true, false, not, ◌&&◌, List, [], ◌∷◌, ◌++◌, Option, none, some, ◌==◌, list_eq, nat_beq,
  nat_eq, ltb, ◌≡◌, refl, arith, if◌then◌else◌,
}
use kylin_kmre_manager.Base.Text.{Text, codes}
use kylin_kmre_manager.Manager.Apps.Install.{after_slash}

-- businfo, by the type of the bus.
pub data Bus : Type 0 where
  pci : ℕ → ℕ → ℕ → ℕ → Bus
  platform host1x : Text → Bus
  other_bus : Bus

-- A drmDevice: its bus, the node for rendering if it has one, and the ids that it has on a PCI bus.
pub record Card : Type 0 where
  pub bus : Bus
  pub render_node : Option Text
  pub vendor_id : ℕ
  pub device_id : ℕ

-- The conversions %04x and %02x, by their width, and %1u.
pub record Printf : Type 0 where
  pub hex : ℕ → ℕ → Text
  pub decimal : ℕ → Text

-- strchr, and the text before and after the character.
unfoldable pub split_first : ℕ → Text → Option (Text × Text)
split_first c [] = none
split_first c (x ∷ s) =
    let rest = split_first c s in
    if nat_beq x c then some ([], s) else elim rest [ none ↦ none | some p ↦ some (x ∷ p.0, p.1) ]

abbrev pub tag_of_parts : Text → Option (Text × Text) → Text
tag_of_parts name none = codes "platform-" ++ name
tag_of_parts name (some p) = codes "platform-" ++ (p.1 ++ (codes "_" ++ p.0))

unfoldable pub platform_tag : Text → Text
unfolding split_first after_slash
platform_tag fullname =
    tag_of_parts (after_slash [] fullname) (split_first b'@' (after_slash [] fullname))

-- drm_construct_id_path_tag.
unfoldable pub construct_tag : Printf → Bus → Option Text
unfolding platform_tag
construct_tag f (pci domain bus dev func) = some (
    codes "pci-"
    ++ (f.hex 4 domain
        ++ (codes "_"
            ++ (f.hex 2 bus ++ (codes "_" ++ (f.hex 2 dev ++ (codes "_" ++ f.decimal func)))))))
construct_tag f (platform fullname) = some (platform_tag fullname)
construct_tag f (host1x fullname) = some (platform_tag fullname)
construct_tag f other_bus = none

abbrev pub same_tag : Option Text → Text → Bool
same_tag none prime_tag = false
same_tag (some tag) prime_tag = tag == prime_tag

-- drm_device_matches_tag.
unfoldable pub matches_tag : Printf → Card → Text → Bool
unfolding construct_tag
matches_tag f c prime_tag = same_tag (construct_tag f c.bus) prime_tag

-- The test of the two loops, for a card with a node for rendering.
unfoldable pub is_preferred : Printf → Text → Text → Card → Bool
unfolding matches_tag
is_preferred f prime default_tag c =
    if prime == codes "1" then not (matches_tag f c default_tag) else matches_tag f c prime

abbrev pub or_next : Bool → Option Text → Option Text → Option Text
or_next preferred none next = next
or_next true (some node) next = some node
or_next false (some node) next = next

-- The node of the first card that the loop finds.
unfoldable pub find_node : Printf → Text → Text → List Card → Option Text
unfolding is_preferred
find_node f prime default_tag [] = none
find_node f prime default_tag (c ∷ l) =
    or_next (is_preferred f prime default_tag c) c.render_node (find_node f prime default_tag l)

-- The answers of the kernel and of libdrm: what open gives with O_CLOEXEC, whether it refused that with
-- EINVAL, what it gives without, the device of a descriptor, and all devices.
pub record Drm : Type 0 where
  pub open_cloexec : Text → Option ℕ
  pub is_einval : Text → Bool
  pub open_plain : Text → Option ℕ
  pub device_of : ℕ → Option Card
  pub devices : Option (List Card)

abbrev pub opened_or : Option ℕ → Bool → Option ℕ → Option ℕ
opened_or (some fd) einval plain = some fd
opened_or none true plain = plain
opened_or none false plain = none

unfoldable pub open_device : Drm → Text → Option ℕ
open_device k node = opened_or (k.open_cloexec node) (k.is_einval node) (k.open_plain node)

-- drm_get_id_path_tag_for_fd.
unfoldable pub tag_for_fd : Printf → Option Card → Option Text
unfolding construct_tag
tag_for_fd f none = none
tag_for_fd f (some c) = construct_tag f c.bus

abbrev pub or_default : ℕ → Option ℕ → ℕ × Bool
or_default default_fd none = (default_fd, false)
or_default default_fd (some fd) = (fd, true)

abbrev pub open_found : Drm → Option Text → Option ℕ
open_found k none = none
open_found k (some node) = open_device k node

abbrev pub preferred : Printf → Drm → Option Text → Option Text → Option (List Card) → Option ℕ
preferred f k none tag cards = none
preferred f k (some prime) none cards = none
preferred f k (some prime) (some tag) none = none
preferred f k (some prime) (some tag) (some cards) = open_found k (find_node f prime tag cards)

-- get_user_preferred_fd, for DRI_PRIME: the descriptor, and whether default_fd was closed.
unfoldable pub get_user_preferred_fd : Printf → Drm → Option Text → ℕ → ℕ × Bool
unfolding find_node open_device tag_for_fd
get_user_preferred_fd f k dri_prime default_fd =
    or_default default_fd
      (preferred f k dri_prime (tag_for_fd f (k.device_of default_fd)) k.devices)

-- drm_get_pci_id_for_fd.
abbrev pub ids_on : Bus → ℕ × ℕ → Option (ℕ × ℕ)
ids_on (pci domain bus dev func) ids = some ids
ids_on (platform fullname) ids = none
ids_on (host1x fullname) ids = none
ids_on other_bus ids = none

unfoldable pub pci_id : Option Card → Option (ℕ × ℕ)
pci_id none = none
pci_id (some c) = ids_on c.bus (c.vendor_id, c.device_id)

-- The X server: whether the connection has no error, the number of its screen among how many there are,
-- and the descriptors in the reply of DRI3, if it comes.
pub record Server : Type 0 where
  pub connects : Bool
  pub screen_number : ℕ
  pub screens : ℕ
  pub reply : Option (List ℕ)

-- xcb_open; the loop stops at the screen with the number.
unfoldable pub xcb_open : Server → Bool
xcb_open x = x.connects && ltb x.screen_number x.screens

unfoldable pub dri3_open : Option (List ℕ) → Option ℕ
dri3_open none = none
dri3_open (some []) = none
dri3_open (some (fd ∷ [])) = some fd
dri3_open (some (fd ∷ fd2 ∷ l)) = none

-- get_gpu_pci_info_xcb: the ids, and whether its connection is left open.
abbrev pub ids_of_fd : Printf → Drm → Option Text → Option ℕ → Option (ℕ × ℕ) × Bool
ids_of_fd f k dri_prime none = (none, true)
ids_of_fd f k dri_prime (some fd) =
    (pci_id (k.device_of (get_user_preferred_fd f k dri_prime fd).0), false)

unfoldable pub pci_info_xcb : Printf → Drm → Option Text → Server → Option (ℕ × ℕ) × Bool
unfolding get_user_preferred_fd pci_id xcb_open dri3_open
pci_info_xcb f k dri_prime x =
    if xcb_open x then ids_of_fd f k dri_prime (dri3_open x.reply) else (none, false)

-- If the default descriptor is not closed, it is the answer.
get_user_preferred_fd_default :
    (f : Printf) (k : Drm) (dri_prime : Option Text) (fd : ℕ)
    → (get_user_preferred_fd f k dri_prime fd).1 ≡ false
    → (get_user_preferred_fd f k dri_prime fd).0 ≡ fd
unfolding get_user_preferred_fd
get_user_preferred_fd_default f k dri_prime fd h =
    cases (preferred f k dri_prime (tag_for_fd f (k.device_of fd)) k.devices) h
  where
    cases : (o : Option ℕ) → (or_default fd o).1 ≡ false → (or_default fd o).0 ≡ fd
    cases none p = refl
    cases (some n) p = ground arith
