-- ===== src/Manager/Display.antt =====
-- manager/kmre/wm/: the sizes and densities of the display, the GPU, and the display type.
pub mod Size
pub mod SizeLaws
pub mod Ratio
pub mod Gpu
pub mod Probe
pub mod Prime
pub mod Gles
pub mod Vendor
pub mod Information
pub mod Kind
pub mod KindLaws
