-- ===== src/Manager/Display/Vendor/Stays.antt =====
-- What the probes of the GPU and of commands guarantee (manager/kmre/wm/gpuinfo.cpp,
-- displaytypemanager.cpp).
use kylin_kmre_manager.Base.{ℕ, ◌+◌, ◌≤◌, ◌<◌, ◌≡◌, List, [], ◌∷◌, All, length, arith}
use kylin_kmre_manager.Base.Text.{Text}
use kylin_kmre_manager.Manager.Display.Gpu.{GpuIds}
use kylin_kmre_manager.Manager.Display.Vendor.{GpuInfo, get_gpu_vendor_from_drm, copy_lines}

-- The vendor that was found, or was not, is the answer of every later call.
get_gpu_vendor_from_drm_stays :
    (found later : GpuIds) (g : GpuInfo)
    → get_gpu_vendor_from_drm later (get_gpu_vendor_from_drm found g).0
      ≡ get_gpu_vendor_from_drm found g
unfolding get_gpu_vendor_from_drm
get_gpu_vendor_from_drm_stays found later g = ground arith

-- Lines of at most 511 characters, as fgets gives them, are written to places of the array up to 511
-- past its size.
copy_lines_bounds :
    (maxlen i : ℕ) (ls : List Text)
    → All (λ l. length l ≤ 511) ls
    → i < maxlen
    → All (λ (r : ℕ × ℕ). r.1 ≤ maxlen + 511) (copy_lines maxlen i ls).0
unfolding copy_lines
copy_lines_bounds maxlen i [] h k = tt
copy_lines_bounds maxlen i ([] ∷ ls) h k = copy_lines_bounds maxlen i ls h.1 k
copy_lines_bounds maxlen i ((c ∷ l) ∷ ls) h k =
    ground (arith, copy_lines_bounds maxlen (i + length (c ∷ l)) ls h.1)

-- A line as long as what is left of the array is written past its end.
copy_lines_past :
    (maxlen i c : ℕ) (l : Text) (ls : List Text)
    → maxlen ≤ i + length (c ∷ l)
    → All (λ (r : ℕ × ℕ). maxlen < r.1) (copy_lines maxlen i ((c ∷ l) ∷ ls)).0
unfolding copy_lines
copy_lines_past maxlen i c l ls h = ground arith
