-- ===== src/Manager/Camera.antt =====
-- manager/camera/: the service that hands a camera of the host to the container.
pub mod Service
pub mod Choice
pub mod Socket
